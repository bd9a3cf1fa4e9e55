-- ===== src/Ring/Linked.antt =====
-- Lists of nodes between two nodes of a store of links.
use ze_os_filesystem.Base.{
  ℕ, ◌≡◌, ◌≢◌, ◌==◌, if◌then◌else◌, List, [], ◌∷◌, ◌++◌, arith, ◌∈◌, ◌∉◌, Distinct, has-append,
  ==_ne, ne_of_mem, ◌∙◌,
}
use ze_os_filesystem.Ring.{Links, add_between}

-- From `a` the links lead through `xs` to `b`, and back.
abbrev pub Linked : Links → ℕ → List ℕ → ℕ → Type 0
Linked h a [] b = (h.next a ≡ b) × (h.prev b ≡ a)
Linked h a (x ∷ xs) b = (h.next a ≡ x) × (h.prev x ≡ a) × Linked h x xs b

abbrev pub last_of : ℕ → List ℕ → ℕ
last_of a [] = a
last_of a (x ∷ xs) = last_of x xs

abbrev pub first_of : List ℕ → ℕ → ℕ
first_of [] b = b
first_of (x ∷ xs) b = x

pub last_of-mem : (a : ℕ) (xs : List ℕ) → last_of a xs ∈ a ∷ xs
last_of-mem a [] = ground arith
last_of-mem a (x ∷ xs) = ground (arith, last_of-mem x xs)

pub prev-last_of :
    (h : Links) (a : ℕ) (xs : List ℕ) (b : ℕ) → Linked h a xs b → h.prev b ≡ last_of a xs
prev-last_of h a [] b l = l.1
prev-last_of h a (x ∷ xs) b l = prev-last_of h x xs b l.2

pub next-first_of :
    (h : Links) (a : ℕ) (xs : List ℕ) (b : ℕ) → Linked h a xs b → h.next a ≡ first_of xs b
next-first_of h a [] b l = l.0
next-first_of h a (x ∷ xs) b l = l.0

-- The links of nodes that are not in the list may differ.
pub Linked-agree :
    (h h' : Links) (a : ℕ) (xs : List ℕ) (b : ℕ)
    → ((k : ℕ) → k ∈ a ∷ xs → h'.next k ≡ h.next k)
    → ((k : ℕ) → k ∈ xs ++ b ∷ [] → h'.prev k ≡ h.prev k)
    → Linked h a xs b
    → Linked h' a xs b
Linked-agree h h' a [] b n p (e, f) = (n a (ground arith) ∙ e, p b (ground arith) ∙ f)
Linked-agree h h' a (x ∷ xs) b n p (e, f, l) = (
  n a (ground arith) ∙ e,
  p x (ground arith) ∙ f,
  Linked-agree h h' x xs b (λ k m. n k (ground arith)) (λ k m. p k (ground arith)) l,
)

-- A node is put before `b`.
pub Linked-add_between :
    (h : Links) (new a : ℕ) (xs : List ℕ) (b : ℕ)
    → new ∉ a ∷ xs
    → new ≢ b
    → Distinct (a ∷ xs)
    → b ∉ xs
    → Linked h a xs b
    → Linked (add_between new (last_of a xs) b h) a (xs ++ new ∷ []) b
unfolding add_between
Linked-add_between h new a [] b fresh other d out (e, f) =
    (ground arith, ground arith, (ground arith, ground arith))
Linked-add_between h new a (x ∷ xs) b fresh other (away, d) out (e, f, l) =
    let z = last_of x xs in
    let here : z ∈ x ∷ xs = last_of-mem x xs in
    let apart : a ≢ z = ne_of_mem a z (x ∷ xs) away here in
    let rest = Linked-add_between h new x xs b (ground arith) other d (ground arith) l in
    (rw (==_ne a z apart) (ground (arith, e)), ground (arith, f), rest)

pub first_of-mem : (ys : List ℕ) (b : ℕ) → first_of ys b ∈ ys ++ b ∷ []
first_of-mem [] b = ground arith
first_of-mem (y ∷ ys) b = ground arith

pub not_later : (k b : ℕ) (ys : List ℕ) → k ∉ ys → k ≢ b → k ∉ ys ++ b ∷ []
not_later k b ys out other = rw (has-append k (b ∷ []) ys, out) (ground arith)

-- A node is cut out; its own links do not matter any more.
pub Linked-cut :
    (h h' : Links) (e a : ℕ) (xs ys : List ℕ) (b : ℕ)
    → ((k : ℕ)
        → k ≢ e
        → (h'.next k ≡ (if k == last_of a xs then first_of ys b else h.next k))
          × (h'.prev k ≡ (if k == first_of ys b then last_of a xs else h.prev k)))
    → Distinct (a ∷ (xs ++ e ∷ ys))
    → b ∉ xs ++ e ∷ ys
    → Linked h a (xs ++ e ∷ ys) b
    → Linked h' a (xs ++ ys) b
Linked-cut h h' e a [] [] b at (away, d) out (n, p, (n', p')) =
    (ground (arith, at a), ground (arith, at b))
Linked-cut h h' e a [] (y ∷ ys) b at (away, d) out (n, p, (n', p', l)) = (
  ground (arith, at a),
  ground (arith, at y),
  Linked-agree h h' y ys b
      (λ k m.
        let u = ne_of_mem e k (y ∷ ys) d.0 m in
        let v = ne_of_mem a k (e ∷ y ∷ ys) away (ground arith) in ground (arith, at k))
      (λ k m.
        let u = ne_of_mem e k (ys ++ b ∷ []) (not_later e b ys (ground arith) (ground arith)) m in
        let v = ne_of_mem y k (ys ++ b ∷ []) (not_later y b ys (ground arith) (ground arith)) m in
        ground (arith, at k))
      l,
)
Linked-cut h h' e a (x ∷ xs) ys b at (away, d) out (n, p, l) =
    let parts = has-append a (e ∷ ys) (x ∷ xs) in
    let parts' = has-append x (e ∷ ys) xs in
    let z = ne_of_mem a (last_of x xs) (x ∷ xs) (ground arith) (last_of-mem x xs) in
    let f =
      ne_of_mem x (first_of ys b) (ys ++ b ∷ []) (not_later x b ys (ground arith) (ground arith))
        (first_of-mem ys b) in
    (ground (arith, at a), ground (arith, at x), Linked-cut h h' e x xs ys b at d (ground arith) l)
