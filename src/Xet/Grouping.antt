-- ===== src/Xet/Grouping.antt =====
-- `undoByteGrouping4` of internal/xet/decompress.go: it undoes the grouping of whole groups.
use inference_budget_control.Prelude.{
  ℕ, suc, ◌+◌, ◌*◌, ◌/◌, ◌%◌, ◌≤◌, ◌<◌, List, [], ◌∷◌, ◌++◌, map, ◌≡◌, refl, sym, ◌∙◌, ap, subst,
  arith, length, length-append, ltb, ◌==◌, true, false, ◌&&◌,
}
use inference_budget_control.Prelude.Bytes.{get_or, set, replicate, append_assoc, append_nil}
use inference_budget_control.Xet.{Bytes}
use inference_budget_control.Xet.Decompress.{
  copy_byte, copy_group, copy_groups, undo_byte_grouping4,
}

-- Four bytes that stand together.
abbrev pub Quad : Type 0
Quad = ℕ × ℕ × ℕ × ℕ

abbrev pub flatten : List Quad → Bytes
flatten [] = []
flatten ((a, b, c, d) ∷ quads) = a ∷ b ∷ c ∷ d ∷ flatten quads

-- ByteGrouping4: the first bytes of all quads, then the second ones, and so on.
abbrev pub group : List Quad → Bytes
group quads =
    map (λ (q : Quad). q.0) quads
    ++ (map (λ (q : Quad). q.1) quads
        ++ (map (λ (q : Quad). q.2) quads ++ map (λ (q : Quad). q.3) quads))

length-map : (f : Quad → ℕ) (quads : List Quad) → length (map f quads) ≡ length quads
length-map f [] = refl
length-map f (q ∷ quads) = ap suc (length-map f quads)

length-flatten : (quads : List Quad) → length (flatten quads) ≡ 4 * length quads
length-flatten [] = refl
length-flatten (q ∷ quads) = omega (arith, length-flatten quads)

length-group : (quads : List Quad) → length (group quads) ≡ 4 * length quads
length-group quads =
    let a = map (λ (q : Quad). q.0) quads in
    let b = map (λ (q : Quad). q.1) quads in
    let c = map (λ (q : Quad). q.2) quads in
    let d = map (λ (q : Quad). q.3) quads in
    omega (
      arith,
      length-append a (b ++ (c ++ d)),
      length-append b (c ++ d),
      length-append c d,
      length-map (λ (q : Quad). q.0) quads,
      length-map (λ (q : Quad). q.1) quads,
      length-map (λ (q : Quad). q.2) quads,
      length-map (λ (q : Quad). q.3) quads,
    )

get_or-right : (xs ys : Bytes) (i : ℕ) → get_or (xs ++ ys) (length xs + i) 0 ≡ get_or ys i 0
get_or-right [] ys i = ap (λ n. get_or ys n 0) (omega arith)
get_or-right (x ∷ xs) ys i =
    let e : suc (length xs) + i ≡ suc (length xs + i) = omega arith in
    ap (λ n. get_or (x ∷ (xs ++ ys)) n 0) e ∙ get_or-right xs ys i

-- The byte of the quad behind `before`, in the plane of `f`.
get_or-plane :
    (f : Quad → ℕ) (before : List Quad) (q : Quad) (after : List Quad) (more : Bytes)
    → get_or (map f (before ++ q ∷ after) ++ more) (length before) 0 ≡ f q
get_or-plane f [] q after more = refl
get_or-plane f (p ∷ before) q after more = get_or-plane f before q after more

-- A plane further, the index is the number of quads more.
get_or-skip :
    (f : Quad → ℕ) (quads : List Quad) (more : Bytes) (n i m : ℕ)
    → length quads ≡ n
    → m ≡ n + i
    → get_or (map f quads ++ more) m 0 ≡ get_or more i 0
get_or-skip f quads more n i m e e' =
    ap (λ k. get_or (map f quads ++ more) k 0) (e' ∙ omega (arith, length-map f quads, e))
    ∙ get_or-right (map f quads) more i

set-append : (xs ys : Bytes) (j v : ℕ) → set (xs ++ ys) (length xs + j) v ≡ xs ++ set ys j v
set-append [] ys j v = ap (λ n. set ys n v) (omega arith)
set-append (x ∷ xs) ys j v =
    let e : suc (length xs) + j ≡ suc (length xs + j) = omega arith in
    ap (λ n. set (x ∷ (xs ++ ys)) n v) e ∙ ap (λ t. x ∷ t) (set-append xs ys j v)

both_less : (a b c d : ℕ) → a < b → c < d → (ltb a b && ltb c d) ≡ true
both_less a b c d h k = ground arith

copy_byte-set :
    (input done ys : Bytes) (source target j v : ℕ)
    → source < length input
    → j < length ys
    → target ≡ length done + j
    → get_or input source 0 ≡ v
    → copy_byte input source target (done ++ ys) ≡ done ++ set ys j v
unfolding copy_byte
copy_byte-set input done ys source target j v inside room at value =
    rw
      (
        both_less source (length input) target (length (done ++ ys)) inside
            (omega (arith, length-append done ys)),
        value,
        at,
      )
      (set-append done ys j v)

-- The four bytes of a quad, by their indices in the grouped data.
get_or-group :
    (before : List Quad) (q : Quad) (after : List Quad) (n i : ℕ)
    → length (before ++ q ∷ after) ≡ n
    → length before ≡ i
    → (get_or (group (before ++ q ∷ after)) (i + 0 * n) 0 ≡ q.0)
      × (get_or (group (before ++ q ∷ after)) (i + 1 * n) 0 ≡ q.1)
      × (get_or (group (before ++ q ∷ after)) (i + 2 * n) 0 ≡ q.2)
      × (get_or (group (before ++ q ∷ after)) (i + 3 * n) 0 ≡ q.3)
get_or-group before q after n i e e' =
    let all = before ++ q ∷ after in
    let f₀ = λ (q : Quad). q.0 in
    let f₁ = λ (q : Quad). q.1 in
    let f₂ = λ (q : Quad). q.2 in
    let f₃ = λ (q : Quad). q.3 in
    let p₃ = map f₃ all in
    let p₂ = map f₂ all ++ p₃ in
    let p₁ = map f₁ all ++ p₂ in
    (
      ap (λ k. get_or (group all) k 0) (omega (arith, e')) ∙ get_or-plane f₀ before q after p₁,
      get_or-skip f₀ all p₁ n i (i + 1 * n) e (omega arith)
          ∙ ap (λ k. get_or p₁ k 0) (sym e')
          ∙ get_or-plane f₁ before q after p₂,
      get_or-skip f₀ all p₁ n (i + 1 * n) (i + 2 * n) e (omega arith)
          ∙ get_or-skip f₁ all p₂ n i (i + 1 * n) e (omega arith)
          ∙ ap (λ k. get_or p₂ k 0) (sym e')
          ∙ get_or-plane f₂ before q after p₃,
      get_or-skip f₀ all p₁ n (i + 2 * n) (i + 3 * n) e (omega arith)
          ∙ get_or-skip f₁ all p₂ n (i + 1 * n) (i + 2 * n) e (omega arith)
          ∙ get_or-skip f₂ all p₃ n i (i + 1 * n) e (omega arith)
          ∙ ap (λ k. get_or p₃ k 0) (sym e')
          ∙ ap (λ l. get_or l (length before) 0) (sym (append_nil p₃))
          ∙ get_or-plane f₃ before q after [],
    )

copy_group-quad :
    (before : List Quad) (q : Quad) (after : List Quad) (done : Bytes) (n i w x y z : ℕ)
    (rest : Bytes)
    → length (before ++ q ∷ after) ≡ n
    → length before ≡ i
    → length done ≡ 4 * i
    → copy_group (group (before ++ q ∷ after)) n i (done ++ (w ∷ x ∷ y ∷ z ∷ rest))
      ≡ done ++ (q.0 ∷ q.1 ∷ q.2 ∷ q.3 ∷ rest)
unfolding copy_group
copy_group-quad before q after done n i w x y z rest e e' l =
    let input = group (before ++ q ∷ after) in
    let size = length-group (before ++ q ∷ after) in
    let below = length-append before (q ∷ after) in
    let (b₀, b₁, b₂, b₃) = get_or-group before q after n i e e' in
    rw (
      copy_byte-set input done (w ∷ x ∷ y ∷ z ∷ rest) (i + 0 * n) (i * 4 + 0) 0 q.0
          (omega (arith, size, below, e, e')) (omega arith) (omega (arith, l)) b₀,
      copy_byte-set input done (q.0 ∷ x ∷ y ∷ z ∷ rest) (i + 1 * n) (i * 4 + 1) 1 q.1
          (omega (arith, size, below, e, e')) (omega arith) (omega (arith, l)) b₁,
      copy_byte-set input done (q.0 ∷ q.1 ∷ y ∷ z ∷ rest) (i + 2 * n) (i * 4 + 2) 2 q.2
          (omega (arith, size, below, e, e')) (omega arith) (omega (arith, l)) b₂,
      copy_byte-set input done (q.0 ∷ q.1 ∷ q.2 ∷ z ∷ rest) (i + 3 * n) (i * 4 + 3) 3 q.3
          (omega (arith, size, below, e, e')) (omega arith) (omega (arith, l)) b₃,
    )

copy_groups-quads :
    (all before after : List Quad) (done : Bytes) (n i : ℕ)
    → before ++ after ≡ all
    → length all ≡ n
    → length before ≡ i
    → length done ≡ 4 * i
    → copy_groups (group all) n i (length after) (done ++ replicate (length (flatten after)) 0)
      ≡ done ++ flatten after
unfolding copy_groups
copy_groups-quads all before [] done n i whole e e' l = refl
copy_groups-quads all before (q ∷ after) done n i whole e e' l =
    let rest = replicate (length (flatten after)) 0 in
    let four = q.0 ∷ q.1 ∷ q.2 ∷ q.3 ∷ [] in
    let one : copy_group (group all) n i (done ++ (0 ∷ 0 ∷ 0 ∷ 0 ∷ rest)) ≡ done ++ (four ++ rest) =
      subst
        (λ a. copy_group (group a) n i (done ++ (0 ∷ 0 ∷ 0 ∷ 0 ∷ rest)) ≡ done ++ (four ++ rest))
        whole (copy_group-quad before q after done n i 0 0 0 0 rest (ap length whole ∙ e) e' l) in
    ap (λ r. copy_groups (group all) n (suc i) (length after) r)
      (one ∙ sym (append_assoc done four rest))
    ∙ copy_groups-quads all (before ++ q ∷ []) after (done ++ four) n (suc i)
        (append_assoc before (q ∷ []) after ∙ whole) e
        (omega (arith, length-append before (q ∷ []), e'))
        (omega (arith, length-append done four, l))
    ∙ append_assoc done four (flatten after)

four_times : (k : ℕ) → (4 * k / 4 ≡ k) × (4 * k % 4 ≡ 0)
four_times k = (omega arith, omega arith)

is_some : (n : ℕ) → 0 < n → n == 0 ≡ false
is_some n h = ground arith

no_trim : (e n : ℕ) → n ≤ e → (ltb 0 e && ltb e n) ≡ false
no_trim e n h = ground arith

-- From the first bytes of any quads, followed by their second, third and fourth bytes,
-- undoByteGrouping4 gives back the quads, where the expected size is at least their number of
-- bytes.
pub undo_byte_grouping4-group :
    (quads : List Quad) (expected_size : ℕ)
    → 4 * length quads ≤ expected_size
    → undo_byte_grouping4 (group quads) expected_size ≡ flatten quads
unfolding undo_byte_grouping4
undo_byte_grouping4-group [] expected_size enough = refl
undo_byte_grouping4-group (q ∷ quads) expected_size enough =
    let all = q ∷ quads in
    let n = length all in
    let size = length-group all in
    let (whole, rest) = four_times n in
    let same : 4 * n ≡ length (flatten all) = sym (length-flatten all) in
    let done = copy_groups-quads all [] all [] n 0 refl refl refl refl in
    let big = size ∙ same in
    let start : replicate (length (group all)) 0 ≡ replicate (length (flatten all)) 0 =
      ap (λ m. replicate m 0) big in
    let filled : copy_groups (group all) n 0 n (replicate (length (group all)) 0) ≡ flatten all =
      ap (λ r. copy_groups (group all) n 0 n r) start ∙ done in
    rw (size, is_some (4 * n) (omega arith), rest, whole)
      (rw (filled, no_trim expected_size (length (flatten all)) (omega (arith, enough, same))))
