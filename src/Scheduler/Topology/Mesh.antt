-- ===== src/Scheduler/Topology/Mesh.antt =====
-- src/scheduler/src/topology.rs, `with_mock`: the mesh has every directed link once, at a known place.
use spanker.Common.{
  ℕ, zero, suc, ◌+◌, ◌-◌, ◌*◌, ◌≤◌, ◌<◌, ◌≡◌, ◌≢◌, refl, sym, ap, ◌∙◌, inl, inr, Bool-cases, some,
  List, [], ◌∷◌, ◌++◌, append_assoc, append-nil, length, length-append, length-map, length-range,
  get_elem?, get_elem?-append_left, get_elem?-append_right, get_elem?-cons_suc, range, All,
  All-append, ltb, ◌==◌, if◌then◌else◌, arith,
}
use spanker.Scheduler.Intercard
use spanker.Scheduler.Intercard.{Link, up}
use spanker.Scheduler.Topology.{n_sails, push_links, push_rows, with_mock}

-- The links of one card, and those of several cards, without the vector built so far.
row : ℕ → List ℕ → List Link
row here [] = []
row here (remote ∷ rest) =
    if here == remote then row here rest else Intercard.new here remote up ∷ row here rest

rows : ℕ → List ℕ → List Link
rows n [] = []
rows n (here ∷ rest) = row here (range 0 n) ++ rows n rest

push_links-eq-append :
    (here : ℕ) (remotes : List ℕ) (links : List Link)
    → push_links here remotes links ≡ links ++ row here remotes
unfolding push_links row
push_links-eq-append here [] links = sym (append-nil links)
push_links-eq-append here (r ∷ rest) links = ground (
  arith,
  push_links-eq-append here rest links,
  push_links-eq-append here rest (links ++ Intercard.new here r up ∷ []),
  append_assoc links (Intercard.new here r up ∷ []) (row here rest),
)

push_rows-eq-append :
    (n : ℕ) (cards : List ℕ) (links : List Link) → push_rows n cards links ≡ links ++ rows n cards
unfolding push_rows rows
push_rows-eq-append n [] links = sym (append-nil links)
push_rows-eq-append n (c ∷ rest) links =
    push_rows-eq-append n rest (push_links c (range 0 n) links)
    ∙ rw push_links-eq-append (append_assoc links (row c (range 0 n)) (rows n rest))

-- A card past all remotes of the range, and one before them, keep every remote.
length-row_outside :
    (here first count : ℕ) → here < first → length (row here (range first count)) ≡ count
unfolding row
length-row_outside here first zero h = refl
length-row_outside here first (suc count) h =
    ground (arith, length-row_outside here (first + 1) count)

length-row :
    (here first count : ℕ)
    → first ≤ here
    → here < first + count
    → length (row here (range first count)) + 1 ≡ count
unfolding row
length-row here first zero lo hi = absurd (omega arith)
length-row here first (suc count) lo hi =
    ground (arith, length-row here (first + 1) count, length-row_outside here (first + 1) count)

get_elem?-row_outside :
    (here first count i : ℕ)
    → here < first
    → i < count
    → get_elem? (row here (range first count)) i ≡ some (Intercard.new here (first + i) up)
unfolding row
get_elem?-row_outside here first zero i h lt = absurd (omega arith)
get_elem?-row_outside here first (suc count) zero h lt = ground arith
get_elem?-row_outside here first (suc count) (suc i) h lt =
    ground (arith, get_elem?-row_outside here (first + 1) count i)

-- The place of `remote` in the row of `here`, counted from `first`.
abbrev place : ℕ → ℕ → ℕ → ℕ
place here first remote = if ltb remote here then remote - first else remote - first - 1

get_elem?-row :
    (here first count remote : ℕ)
    → first ≤ here
    → first ≤ remote
    → remote < first + count
    → here ≢ remote
    → get_elem? (row here (range first count)) (place here first remote)
      ≡ some (Intercard.new here remote up)
unfolding row
get_elem?-row here first zero remote lo lo' hi ne = absurd (omega arith)
get_elem?-row here first (suc count) remote lo lo' hi ne = elim (Bool-cases (here == first)) [
  | inl same ↦ ground (arith, get_elem?-row_outside here (first + 1) count (remote - first - 1))
  | inr other ↦ elim (Bool-cases (remote == first)) [
    | inl start ↦ ground arith
    | inr later ↦ ground (
      arith,
      get_elem?-cons_suc (Intercard.new here first up) (row here (range (first + 1) count))
          (place here first remote) (place here (first + 1) remote),
      get_elem?-row here (first + 1) count remote,
    )
  ]
]

length-rows :
    (n first count : ℕ) → first + count ≤ n → length (rows n (range first count)) ≡ count * (n - 1)
unfolding rows
length-rows n first zero h = omega arith
length-rows n first (suc count) h = omega (
  arith,
  length-append (row first (range 0 n)) (rows n (range (first + 1) count)),
  length-row first 0 n,
  length-rows n (first + 1) count,
)

get_elem?-rows :
    (n first count here p : ℕ)
    → first + count ≤ n
    → first ≤ here
    → here < first + count
    → p < n - 1
    → get_elem? (rows n (range first count)) ((here - first) * (n - 1) + p)
      ≡ get_elem? (row here (range 0 n)) p
unfolding rows
get_elem?-rows n first zero here p h lo hi lt = absurd (omega arith)
get_elem?-rows n first (suc count) here p h lo hi lt =
    let rest = rows n (range (first + 1) count) in
    let width = n - 1 in
    let size : length (row first (range 0 n)) ≡ width = omega (arith, length-row first 0 n) in
    elim (Bool-cases (here == first)) [
      | inl same ↦
          let e : first ≡ here = ground arith in
          let z : here - first ≡ 0 = omega arith in
          let q : (here - first) * width + p ≡ p = omega (arith, ap (λ (t : ℕ). t * width) z) in
          rw q (
            get_elem?-append_left (row first (range 0 n)) rest p (omega arith)
            ∙ ap (λ c. get_elem? (row c (range 0 n)) p) e)
      | inr other ↦
          let later : first < here = ground arith in
          let z : here - first ≡ suc (here - (first + 1)) = omega arith in
          let q : (here - first) * width + p
              ≡ length (row first (range 0 n)) + ((here - (first + 1)) * width + p) =
            omega (arith, ap (λ (t : ℕ). t * width) z) in
          get_elem?-append_right (row first (range 0 n)) rest ((here - first) * width + p)
            ((here - (first + 1)) * width + p) q
          ∙ get_elem?-rows n (first + 1) count here p (omega arith) (omega arith) (omega arith) lt
    ]

-- The mock of `n` sails has `n` sails and `n * (n - 1)` links.
pub with_mock-size :
    (n : ℕ) → (n_sails (with_mock n) ≡ n) × (length (with_mock n).links ≡ n * (n - 1))
unfolding with_mock
with_mock-size n = (
  length-map (range 0 n) _ ∙ length-range 0 n,
  rw push_rows-eq-append (length-rows n 0 n (omega arith)),
)

-- In the mock of `n` sails the link from `i` to another sail `j` is up, and stands at index
-- `i * (n - 1)` plus `j`, or plus `j - 1` where `j` is after `i`: row by row, without the diagonal.
pub get_elem?-with_mock :
    (n i j : ℕ)
    → i < n
    → j < n
    → i ≢ j
    → get_elem? (with_mock n).links (i * (n - 1) + (if ltb j i then j else j - 1))
      ≡ some (Intercard.new i j up)
unfolding with_mock
get_elem?-with_mock n i j hi hj ne =
    let p = if ltb j i then j else j - 1 in
    let small : p < n - 1 = ground arith in
    rw push_rows-eq-append (ground (arith, get_elem?-rows n 0 n i p, get_elem?-row i 0 n j))

-- A link of the mock of `n` sails joins two different ones of them, and is up.
abbrev pub IsMeshLink : ℕ → Link → Type 0
IsMeshLink n l =
    (l.local_sail < n) × (l.remote_sail < n) × (l.local_sail ≢ l.remote_sail) × (l.state ≡ up)

row-IsMeshLink :
    (n here first count : ℕ)
    → here < n
    → first + count ≤ n
    → All (IsMeshLink n) (row here (range first count))
unfolding row
row-IsMeshLink n here first zero h fits = tt
row-IsMeshLink n here first (suc count) h fits =
    let rest = row-IsMeshLink n here (first + 1) count h (omega arith) in
    elim (Bool-cases (here == first)) [
      | inl same ↦ rw same rest
      | inr other ↦ rw other ((h, omega arith, ground arith, refl), rest)
    ]

rows-IsMeshLink :
    (n first count : ℕ) → first + count ≤ n → All (IsMeshLink n) (rows n (range first count))
unfolding rows
rows-IsMeshLink n first zero h = tt
rows-IsMeshLink n first (suc count) h =
    All-append (IsMeshLink n) (row first (range 0 n)) (rows n (range (first + 1) count))
      (row-IsMeshLink n first 0 n (omega arith) (omega arith))
      (rows-IsMeshLink n (first + 1) count (omega arith))

-- Every link of the mock joins two different sails of it, and is up.
pub with_mock-IsMeshLink : (n : ℕ) → All (IsMeshLink n) (with_mock n).links
unfolding with_mock
with_mock-IsMeshLink n = rw push_rows-eq-append (rows-IsMeshLink n 0 n (omega arith))
