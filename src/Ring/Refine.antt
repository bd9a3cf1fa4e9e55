-- ===== src/Ring/Refine.antt =====
-- A ring of zeos_full/list.c stands for the list of its nodes, and each operation for one on lists.
use ze_os_filesystem.Base.{
  ℕ, ◌≡◌, ◌≢◌, refl, ◌↔◌, true, List, [], ◌∷◌, ◌++◌, arith, ◌∉◌, Distinct, has-append, ==_ne,
  ne_of_mem,
}
use ze_os_filesystem.Ring.{
  Links, init_list_head, add_between, list_add, list_add_tail, list_del, list_empty, list_first,
  del_between,
}
use ze_os_filesystem.Ring.Linked.{
  Linked, first_of, prev-last_of, next-first_of, Linked-agree, Linked-add_between, Linked-cut,
  not_later,
}

-- The ring of `head` has the nodes `xs`, all of them different and none of them `head`.
pub record Ring (h : Links) (head : ℕ) (xs : List ℕ) : Type 0 where
  pub links : Linked h head xs head
  pub distinct : Distinct (head ∷ xs)

pub Linked-split :
    (h : Links) (a e : ℕ) (xs ys : List ℕ) (b : ℕ)
    → Linked h a (xs ++ e ∷ ys) b
    → Linked h a xs e × Linked h e ys b
Linked-split h a e [] ys b (n, p, l) = ((n, p), l)
Linked-split h a e (x ∷ xs) ys b (n, p, l) =
    let (l1, l2) = Linked-split h x e xs ys b l in ((n, p, l1), l2)

Distinct-end : (new : ℕ) (xs : List ℕ) → Distinct xs → new ∉ xs → Distinct (xs ++ new ∷ [])
Distinct-end new [] d fresh = ground arith
Distinct-end new (x ∷ xs) (out, d) fresh =
    (rw (has-append x (new ∷ []) xs, out) (ground arith), Distinct-end new xs d (ground arith))

Distinct-cut : (e : ℕ) (xs ys : List ℕ) → Distinct (xs ++ e ∷ ys) → Distinct (xs ++ ys)
Distinct-cut e [] ys (out, d) = d
Distinct-cut e (x ∷ xs) ys (out, d) =
    let parts = has-append x (e ∷ ys) xs in
    (rw (has-append x ys xs) (ground arith), Distinct-cut e xs ys d)

-- `INIT_LIST_HEAD` makes an empty ring.
pub init_list_head-Ring : (list : ℕ) (h : Links) → Ring (init_list_head list h) list []
unfolding init_list_head
init_list_head-Ring list h = record { links = (ground arith, ground arith); distinct = (refl, tt) }

list_add-Linked :
    (h : Links) (new head : ℕ) (xs : List ℕ)
    → Ring h head xs
    → new ∉ head ∷ xs
    → Linked (list_add new head h) head (new ∷ xs) head
unfolding list_add add_between
list_add-Linked h new head [] r fresh =
    rw r.links.0 (ground arith, ground arith, (ground arith, ground arith))
list_add-Linked h new head (x ∷ xs) r fresh =
    let (out, d) = r.distinct in
    rw r.links.0 (
      ground arith,
      ground arith,
      (
        ground arith,
        ground arith,
        Linked-agree h _ x xs head
            (λ k m.
              let u = ne_of_mem head k (x ∷ xs) out m in
              let v = ne_of_mem new k (x ∷ xs) (ground arith) m in ground arith)
            (λ k m.
              let u = ne_of_mem x k (xs ++ head ∷ []) (not_later x head xs d.0 (ground arith)) m in
              let v =
                ne_of_mem new k (xs ++ head ∷ [])
                  (not_later new head xs (ground arith) (ground arith)) m in
              ground (arith, r.links.0))
            r.links.2,
      ),
    )

-- For a node outside the ring: `list_add` puts it first.
pub list_add-Ring :
    (h : Links) (new head : ℕ) (xs : List ℕ)
    → Ring h head xs
    → new ∉ head ∷ xs
    → Ring (list_add new head h) head (new ∷ xs)
list_add-Ring h new head xs r fresh = record {
  links = list_add-Linked h new head xs r fresh;
  distinct = (ground (arith, r.distinct), ground (arith, r.distinct));
}

-- For a node outside the ring: `list_add_tail` puts it last.
pub list_add_tail-Ring :
    (h : Links) (new head : ℕ) (xs : List ℕ)
    → Ring h head xs
    → new ∉ head ∷ xs
    → Ring (list_add_tail new head h) head (xs ++ new ∷ [])
unfolding list_add_tail
list_add_tail-Ring h new head xs r fresh =
    let (out, d) = r.distinct in
    let last = prev-last_of h head xs head r.links in
    record {
      links =
          rw last
            (Linked-add_between h new head xs head fresh (ground arith) r.distinct out r.links);
      distinct = Distinct-end new (head ∷ xs) r.distinct fresh;
    }

-- `list_del` takes a node out of its ring, wherever it stands, keeps the order of the others, and
-- leaves it with null links.
pub list_del-Ring :
    (h : Links) (e head : ℕ) (xs ys : List ℕ)
    → Ring h head (xs ++ e ∷ ys)
    → Ring (list_del e h) head (xs ++ ys)
      × ((list_del e h).next e ≡ 0)
      × ((list_del e h).prev e ≡ 0)
unfolding list_del del_between
list_del-Ring h e head xs ys r =
    let (before, behind) = Linked-split h head e xs ys head r.links in
    let p = prev-last_of h head xs e before in
    let n = next-first_of h e ys head behind in
    (
      record {
        links =
            Linked-cut h (list_del e h) e head xs ys head
              (λ k other. rw (p, n, ==_ne k e other) (refl, refl)) r.distinct r.distinct.0 r.links;
        distinct = Distinct-cut e (head ∷ xs) ys r.distinct;
      },
      ground arith,
      ground arith,
    )

-- `list_empty` says whether the ring has no node, and `list_first` is the first one where it has.
pub list_empty-Ring :
    (h : Links) (head : ℕ) (xs : List ℕ)
    → Ring h head xs
    → ((list_empty head h ≡ true) ↔ (xs ≡ [])) × (list_first head h ≡ first_of xs head)
unfolding list_empty list_first
list_empty-Ring h head [] r = ((λ e. refl, λ e. ground (arith, r.links.0)), r.links.0)
list_empty-Ring h head (x ∷ xs) r =
    let apart : x ≢ head = ground (arith, r.distinct.0) in
    ((λ e. absurd (ground (arith, r.links.0)), λ e. cc), r.links.0)
