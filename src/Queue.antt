-- ===== src/Queue.antt =====
-- include/rix/rix_queue.h: the five index-linked lists.
pub mod Links
pub mod Walk
pub mod Tailq
pub mod Chain
pub mod List
pub mod Slist
pub mod Stailq
pub mod Circleq
