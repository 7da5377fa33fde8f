-- ===== src/Queue/Tailq/Holds.antt =====
-- The abstract view of a RIX_TAILQ: the list of its elements.
use relative_q.Base.{
  ℕ, ◌≡◌, ◌≢◌, List, ◌∷◌, ◌++◌, ◌∉◌, Distinct, head_or, last_or, Distinct-insert, Distinct-remove,
}
use relative_q.Queue.Links.{Links, nil}
use relative_q.Queue.Links.Segment.{Segment}
use relative_q.Queue.Links.Splice.{
  Linked, Unlinked, Linked-Segment, Unlinked-Segment, SameOutside, Linked-same, Unlinked-same,
}
use relative_q.Queue.Tailq.{Head, Queue}

-- The queue holds the elements `xs`, in this order.
pub record Holds (q : Queue) (xs : List ℕ) : Type 0 where
  pub first : q.0.first ≡ head_or xs nil
  pub last : q.0.last ≡ last_or nil xs
  pub links : Segment q.1 nil xs nil
  pub distinct : Distinct xs

-- `q` holds `xs`, and nothing but the links of `xs` was written.
pub record Becomes (m : Links) (touched xs : List ℕ) (q : Queue) : Type 0 where
  pub holds : Holds q xs
  pub same : SameOutside touched m q.1

module _ (h h' : Head) (m m' : Links) (e : ℕ) (xs ys : List ℕ)
    (first : h'.first ≡ head_or (xs ++ (e ∷ ys)) nil)
    (last : h'.last ≡ last_or nil (xs ++ (e ∷ ys))) where
  pub Linked-Becomes :
      Linked m m' (last_or nil xs) e (head_or ys nil)
      → Holds (h, m) (xs ++ ys)
      → e ≢ nil
      → e ∉ xs
      → e ∉ ys
      → Becomes m (xs ++ (e ∷ ys)) (xs ++ (e ∷ ys)) (h', m')
  Linked-Becomes w q ne ox oy = record {
    holds = record {
      first = first;
      last = last;
      links = Linked-Segment m m' e xs ys w q.links q.distinct ne ox oy;
      distinct = Distinct-insert e xs ys q.distinct ox oy;
    };
    same = λ a na out. Linked-same m m' e xs ys a na out w;
  }

module _ (h h' : Head) (m m' : Links) (e : ℕ) (xs ys : List ℕ)
    (first : h'.first ≡ head_or (xs ++ ys) nil) (last : h'.last ≡ last_or nil (xs ++ ys)) where
  pub Unlinked-Becomes :
      Unlinked m m' (last_or nil xs) e (head_or ys nil)
      → Holds (h, m) (xs ++ (e ∷ ys))
      → Becomes m (xs ++ (e ∷ ys)) (xs ++ ys) (h', m')
  Unlinked-Becomes w q = record {
    holds = record {
      first = first;
      last = last;
      links = Unlinked-Segment m m' e xs ys w q.links q.distinct;
      distinct = Distinct-remove e xs ys q.distinct;
    };
    same = λ a na out. Unlinked-same m m' e xs ys a na out w;
  }
