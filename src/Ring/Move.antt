-- ===== src/Ring/Move.antt =====
-- Two rings of zeos_full/list.c, and a node that moves from one to the other.
use ze_os_filesystem.Base.{
  ℕ, ◌≡◌, ◌≢◌, refl, List, [], ◌∷◌, ◌++◌, arith, ◌∈◌, ◌∉◌, has-append, ==_ne, ne_of_mem,
}
use ze_os_filesystem.Ring.{Links, add_between, list_add_tail, list_del, del_between}
use ze_os_filesystem.Ring.Linked.{
  last_of, first_of, last_of-mem, first_of-mem, prev-last_of, next-first_of, Linked-agree,
}
use ze_os_filesystem.Ring.Refine.{Ring, Linked-split, list_del-Ring, list_add_tail-Ring}

-- No node is in both lists.
abbrev pub Disjoint : List ℕ → List ℕ → Type 0
Disjoint xs ys = (k : ℕ) → k ∈ xs → k ∉ ys

turned : (k a : ℕ) (xs : List ℕ) → k ∈ xs ++ a ∷ [] → k ∈ a ∷ xs
turned k a xs m = let parts = has-append k (a ∷ []) xs in ground arith

-- The links of a ring are its nodes': what happens elsewhere does not change it.
Ring-agree :
    (h h' : Links) (head : ℕ) (xs : List ℕ)
    → ((k : ℕ) → k ∈ head ∷ xs → (h'.next k ≡ h.next k) × (h'.prev k ≡ h.prev k))
    → Ring h head xs
    → Ring h' head xs
Ring-agree h h' head xs same r = record {
  links =
      Linked-agree h h' head xs head (λ k m. (same k m).0) (λ k m. (same k (turned k head xs m)).1)
        r.links;
  distinct = r.distinct;
}

list_del-Disjoint :
    (h : Links) (e head : ℕ) (xs ys : List ℕ) (other : ℕ) (zs : List ℕ)
    → Ring h head (xs ++ e ∷ ys)
    → Ring h other zs
    → Disjoint (other ∷ zs) (head ∷ (xs ++ e ∷ ys))
    → Ring (list_del e h) other zs
unfolding list_del del_between
list_del-Disjoint h e head xs ys other zs r r' apart =
    let (before, behind) = Linked-split h head e xs ys head r.links in
    let p = prev-last_of h head xs e before in
    let n = next-first_of h e ys head behind in
    Ring-agree h (list_del e h) other zs
      (λ k m.
        let out = apart k m in
        let parts = has-append k (e ∷ ys) xs in
        let a = ne_of_mem k (last_of head xs) (head ∷ xs) (ground arith) (last_of-mem head xs) in
        let b =
          ne_of_mem k (first_of ys head) (ys ++ head ∷ [])
            (rw (has-append k (head ∷ []) ys) (ground arith)) (first_of-mem ys head) in
        let c : k ≢ e = ground arith in
        rw (p, n, ==_ne k e c, ==_ne k (last_of head xs) a, ==_ne k (first_of ys head) b)
          (refl, refl))
      r'

list_add_tail-Disjoint :
    (h : Links) (new head : ℕ) (xs : List ℕ) (other : ℕ) (zs : List ℕ)
    → Ring h head xs
    → Ring h other zs
    → Disjoint (other ∷ zs) (new ∷ head ∷ xs)
    → Ring (list_add_tail new head h) other zs
unfolding list_add_tail add_between
list_add_tail-Disjoint h new head xs other zs r r' apart =
    let p = prev-last_of h head xs head r.links in
    Ring-agree h (list_add_tail new head h) other zs
      (λ k m.
        let out = apart k m in
        let a = ne_of_mem k (last_of head xs) (head ∷ xs) (ground arith) (last_of-mem head xs) in
        let b : k ≢ new = ground arith in
        let c : k ≢ head = ground arith in
        rw (p, ==_ne k new b, ==_ne k (last_of head xs) a, ==_ne k head c) (refl, refl))
      r'

-- Given two rings without a common node: the first node of one is moved by `list_del` and
-- `list_add_tail` to the end of the other, and both are rings with their other nodes in the
-- order in which they were, as when a semaphore wakes a task.
pub list_add_tail-list_del :
    (h : Links) (from to p : ℕ) (ps xs : List ℕ)
    → Ring h from (p ∷ ps)
    → Ring h to xs
    → Disjoint (to ∷ xs) (from ∷ p ∷ ps)
    → Disjoint (from ∷ p ∷ ps) (to ∷ xs)
    → Ring (list_add_tail p to (list_del p h)) from ps
      × Ring (list_add_tail p to (list_del p h)) to (xs ++ p ∷ [])
list_add_tail-list_del h from to p ps xs r r' apart apart' =
    let (cut, _, _) = list_del-Ring h p from [] ps r in
    let kept = list_del-Disjoint h p from [] ps to xs r r' apart in
    let fresh : p ∉ to ∷ xs = apart' p (ground arith) in
    (
      list_add_tail-Disjoint (list_del p h) p to xs from ps kept cut (λ k m.
          let u = ne_of_mem p k (from ∷ ps) (ground (arith, r.distinct)) m in
          let v = apart' k (ground arith) in ground arith),
      list_add_tail-Ring (list_del p h) p to xs kept fresh,
    )
