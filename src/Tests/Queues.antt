-- ===== src/Tests/Queues.antt =====
-- The list macros of include/rix/rix_queue.h at elements 1 to 4 of an array.
use relative_q.Base.{List, if◌then◌else◌, ℕ, ◌∷◌, ◌≡◌, some, ◌==◌, [], refl, arith}
use relative_q.Queue.Links.{Links, nil}
use relative_q.Queue.Tailq
use relative_q.Queue.List
use relative_q.Queue.Slist
use relative_q.Queue.Stailq
use relative_q.Queue.Circleq
use relative_q.Queue.Tailq.Holds as TailqHolds
use relative_q.Queue.Tailq.Insert as TailqInsert
use relative_q.Queue.Tailq.Remove as TailqRemove
use relative_q.Queue.List.Holds as ListHolds
use relative_q.Queue.List.Edit as ListEdit
use relative_q.Queue.Slist.Laws as SlistLaws
use relative_q.Queue.Stailq.View as StailqView
use relative_q.Queue.Stailq.Remove as StailqRemove
use relative_q.Queue.Circleq.Ring as CircleqRing
use relative_q.Queue.Circleq.Remove as CircleqRemove
use relative_q.Queue.Circleq.Visit as CircleqVisit

-- Element 1 leads to 3, and element 3 to none; 2 and 4 stand alone.
abbrev next : ℕ → ℕ
next i = if i == 1 then 3 else 0

abbrev links : Links
links = record { next = next; prev = λ i. if i == 3 then 1 else 0 }

abbrev pair : List ℕ
pair = 1 ∷ 3 ∷ []

abbrev tailq : Tailq.Head
tailq = record { first = 1; last = 3 }

tailq-Holds : TailqHolds.Holds (tailq, links) pair
tailq-Holds = record {
  first = refl;
  last = refl;
  links = (cc, refl, refl, (cc, refl, refl, tt));
  distinct = (refl, (refl, tt));
}

-- Element 2 alone in a second queue.
abbrev single : Tailq.Head
single = record { first = 2; last = 2 }

single-Holds : TailqHolds.Holds (single, links) (2 ∷ [])
single-Holds = record {
  first = refl;
  last = refl;
  links = (cc, refl, refl, tt);
  distinct = (refl, tt);
}

insert_tail-Tailq_example :
    TailqHolds.Becomes links (1 ∷ 3 ∷ 2 ∷ []) (1 ∷ 3 ∷ 2 ∷ []) (Tailq.insert_tail 2 (tailq, links))
insert_tail-Tailq_example =
    TailqInsert.insert_tail-Tailq 2 tailq links (omega arith) pair tailq-Holds refl

remove-Tailq_example :
    TailqHolds.Becomes links pair (3 ∷ []) (Tailq.remove 1 (tailq, links))
    × ((Tailq.remove 1 (tailq, links)).1.next 1 ≡ nil)
    × ((Tailq.remove 1 (tailq, links)).1.prev 1 ≡ nil)
remove-Tailq_example = TailqRemove.remove-Tailq 1 tailq links [] (3 ∷ []) tailq-Holds

abbrev list : List.Head
list = record { first = 1 }

list-Holds : ListHolds.Holds (list, links) pair
list-Holds = record { first = refl; links = tailq-Holds.links; distinct = (refl, (refl, tt)) }

remove-List_example :
    ListHolds.Becomes links pair (1 ∷ []) (List.remove 3 (list, links))
    × ((List.remove 3 (list, links)).1.next 3 ≡ nil)
    × ((List.remove 3 (list, links)).1.prev 3 ≡ nil)
remove-List_example = ListEdit.remove-List 3 list links (1 ∷ []) [] list-Holds

abbrev other : List.Head
other = record { first = 2 }

abbrev slist : Slist.Head
slist = record { first = 1 }

slist-Holds : SlistLaws.Holds (slist, next) pair
slist-Holds = record {
  first = refl;
  links = (cc, refl, (cc, refl, tt));
  distinct = (refl, (refl, tt));
}

insert_after-Slist_example :
    SlistLaws.Becomes next (3 ∷ 4 ∷ []) (1 ∷ 3 ∷ 4 ∷ []) (Slist.insert_after 3 4 (slist, next))
insert_after-Slist_example =
    SlistLaws.insert_after-Slist slist next 3 4 (1 ∷ []) [] slist-Holds (omega arith) refl

abbrev stailq : Stailq.Head
stailq = record { first = 1; last = 3 }

stailq-Holds : StailqView.Holds (stailq, next) pair
stailq-Holds = record {
  chain = record { first = refl; links = slist-Holds.links; distinct = slist-Holds.distinct };
  last = refl;
}

remove-Stailq_example :
    (q : Stailq.Queue) × (Stailq.remove 2 3 (stailq, next) ≡ some q)
    × StailqView.Becomes next (1 ∷ []) (1 ∷ []) q
remove-Stailq_example =
    StailqRemove.remove-Stailq stailq next 2 3 (1 ∷ []) [] stailq-Holds (omega arith)

abbrev lone : Stailq.Head
lone = record { first = 2; last = 2 }

-- The ring of the elements 1 and 3.
abbrev ring : Links
ring = record {
  next = λ i. if i == 1 then 3 else if i == 3 then 1 else 0;
  prev = λ i. if i == 1 then 3 else if i == 3 then 1 else 0;
}

abbrev circleq : Circleq.Head
circleq = record { first = 1 }

circleq-Holds : CircleqRing.Holds (circleq, ring) pair
circleq-Holds = record {
  first = refl;
  links = (cc, refl, refl, (cc, refl, refl, tt));
  distinct = (refl, (refl, tt));
}

remove-Circleq_example :
    CircleqRing.Becomes ring (1 ∷ 3 ∷ 3 ∷ []) (3 ∷ []) (Circleq.remove 1 (circleq, ring))
    × ((Circleq.remove 1 (circleq, ring)).1.next 1 ≡ nil)
    × ((Circleq.remove 1 (circleq, ring)).1.prev 1 ≡ nil)
remove-Circleq_example = CircleqRemove.remove-Circleq 1 circleq ring [] (3 ∷ []) circleq-Holds

foreach_safe_stops-Circleq_example :
    (Circleq.foreach_safe Circleq.remove 3 (circleq, ring)
      ≡ some (Circleq.remove 1 (circleq, ring)))
    × CircleqRing.Holds (Circleq.remove 1 (circleq, ring)) (3 ∷ [])
foreach_safe_stops-Circleq_example =
    CircleqVisit.foreach_safe_stops-Circleq circleq ring 1 3 [] 1 circleq-Holds
