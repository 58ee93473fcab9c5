-- ===== src/Gguf/Within.antt =====
-- What the check of internal/download/file_ops.go says of the data of the tensors.
use inference_budget_control.Prelude.{
  ℕ, suc, ◌+◌, ◌-◌, ◌*◌, ◌/◌, ◌%◌, ◌^◌, ◌<◌, List, [], ◌∷◌, ◌≡◌, refl, sym, ◌∙◌, ap, arith, ◌==◌,
  true, false, if◌then◌else◌, Option, some, none, Bool-cases, inl, inr, All, ◌↔◌,
}
use inference_budget_control.Prelude.Int.{ℤ, pos, ◌≤ℤ◌, ltb_ℤ, int64-pos, int64-+ℤ}
use inference_budget_control.Prelude.Results.{ok}
use inference_budget_control.Gguf.{TensorInfo}
use inference_budget_control.Gguf.Bounds.{
  QuantInfo, quant_types, find_quant, u64, num_elements, blocks_size, size_of,
  compute_tensor_data_size, tensor_data_start, end_offset, ends_within, check_tensors,
  validate_gguf_tensor_bounds,
}
use native.Mathlib.Nat.{div-eq_of_lt, div-add-mod, mod-lt, mul_assoc, mul-add-div_right}

abbrev pub product : List ℕ → ℕ
product [] = 1
product (d ∷ ds) = d * product ds

-- The bytes of a tensor, by its blocks.
abbrev pub data_size : QuantInfo → List ℕ → ℕ
data_size q ds = (product ds + q.block_size - 1) / q.block_size * q.bytes_per_block

-- No multiplication or addition of the size overflows.
abbrev pub IsModest : QuantInfo → List ℕ → Type 0
IsModest q ds = (product ds + q.block_size < 2 ^ 64) × (data_size q ds < 2 ^ 64)

-- Where the data begins: the first multiple of the alignment from the header's end on.
abbrev pub align_up : ℕ → ℕ → ℕ
align_up header_size alignment =
    if alignment == 0 then header_size else (header_size + alignment - 1) / alignment * alignment

-- A tensor of a known type ends within the file.
abbrev pub WithinOf : ℕ → ℤ → TensorInfo → Option QuantInfo → Type 0
WithinOf start file_size t none = Unit
WithinOf start file_size t (some q) = pos (start + t.offset + data_size q t.dimensions) ≤ℤ file_size

abbrev pub IsWithin : ℕ → ℤ → TensorInfo → Type 0
IsWithin start file_size t = WithinOf start file_size t (find_quant t.kind quant_types)

-- Its numbers are those of a file that an int64 can measure.
abbrev pub SaneOf : ℕ → TensorInfo → Option QuantInfo → Type 0
SaneOf start t none = Unit
SaneOf start t (some q) =
    IsModest q t.dimensions × (start + t.offset + data_size q t.dimensions < 2 ^ 63)

abbrev pub IsSane : ℕ → TensorInfo → Type 0
IsSane start t = SaneOf start t (find_quant t.kind quant_types)

num_elements-zero : (ds : List ℕ) (n : ℕ) → product ds ≡ 0 → num_elements n ds ≡ none
unfolding num_elements
num_elements-zero [] n e = absurd (omega (arith, e))
num_elements-zero (d ∷ ds) n e = elim (Bool-cases (d == 0)) [
  | inl zero ↦ rw zero
  | inr more ↦ rw more (num_elements-zero ds (u64 (n * d)) (grind arith))
]

mul_mono : (a b c : ℕ) → 0 < c → a * b < a * b * c + 1
mul_mono a b c h = grind arith

pos_right : (a b : ℕ) → 0 < a * b → 0 < b
pos_right a b h = grind arith

u64_small : (n : ℕ) → n < 2 ^ 64 → u64 n ≡ n
u64_small n h = omega arith

num_elements-exact :
    (ds : List ℕ) (n : ℕ)
    → 0 < product ds
    → n * product ds < 2 ^ 64
    → num_elements n ds ≡ some (n * product ds)
unfolding num_elements
num_elements-exact [] n some_ modest = ap some (omega arith)
num_elements-exact (d ∷ ds) n some_ modest =
    let positive = pos_right d (product ds) some_ in
    let exact : n * d * product ds < 2 ^ 64 = rw (mul_assoc n d (product ds)) modest in
    elim (Bool-cases (d == 0)) [
      | inl zero ↦ let e : d ≡ 0 = ground arith in absurd (omega (arith, rw e at some_))
      | inr more ↦
          rw (more, u64_small (n * d) (omega (arith, mul_mono n d (product ds) positive)))
            (num_elements-exact ds (n * d) positive exact ∙ ap some (mul_assoc n d (product ds)))
    ]

no_block : (b : ℕ) → (0 + b - 1) / b ≡ 0
no_block b = elim (Bool-cases (b == 0)) [
  | inl zero ↦ let e : b ≡ 0 = ground arith in rw e
  | inr more ↦ let h : 0 + b - 1 < b = ground arith in div-eq_of_lt h
]

last_of_block : (n b : ℕ) → 0 < n → n + b < 2 ^ 64 → u64 (u64 (n + b) + 2 ^ 64 - 1) ≡ n + b - 1
last_of_block n b some_ modest = omega arith

pub blocks_size-exact :
    (q : QuantInfo) (ds : List ℕ)
    → IsModest q ds
    → blocks_size q (num_elements 1 ds) ≡ data_size q ds
blocks_size-exact q ds modest = elim (Bool-cases (product ds == 0)) [
  | inl zero ↦
      let e : product ds ≡ 0 = ground arith in
      rw (num_elements-zero ds 1 e, e, no_block q.block_size) (omega arith)
  | inr more ↦
      let some_ : 0 < product ds = ground arith in
      let one : 1 * product ds ≡ product ds = omega arith in
      rw (
        num_elements-exact ds 1 some_ (omega (arith, modest.0)),
        one,
        last_of_block (product ds) q.block_size some_ modest.0,
        u64_small (data_size q ds) modest.1,
      )
]

not_over : (file_size end : ℤ) → ltb_ℤ file_size end ≡ false → end ≤ℤ file_size
not_over file_size end h = ground arith

over : (file_size end : ℤ) → ltb_ℤ file_size end ≡ true → ¬ (end ≤ℤ file_size)
over file_size end h = ground arith

end_offset-exact :
    (start offset size : ℕ)
    → start + offset + size < 2 ^ 63
    → end_offset (pos start) offset size ≡ pos (start + offset + size)
unfolding end_offset
end_offset-exact start offset size sane = rw (
  int64-pos offset (omega arith),
  int64-pos size (omega arith),
  int64-+ℤ start offset (omega arith),
  int64-+ℤ (start + offset) size sane,
)

ends_within_iff :
    (start : ℕ) (file_size : ℤ) (t : TensorInfo) (o : Option QuantInfo)
    → SaneOf start t o
    → (ends_within (pos start) file_size t.offset (size_of o t.dimensions) ≡ true)
      ↔ WithinOf start file_size t o
ends_within_iff start file_size t none sane = (λ e. tt, λ e. refl)
ends_within_iff start file_size t (some q) sane =
    let end = pos (start + t.offset + data_size q t.dimensions) in
    rw
      (
        blocks_size-exact q t.dimensions sane.0,
        end_offset-exact start t.offset (data_size q t.dimensions) sane.1,
      )
      (elim (Bool-cases (ltb_ℤ file_size end)) [
        | inl beyond ↦ rw beyond ((λ e. cc), (λ w. absurd (over file_size end beyond w)))
        | inr inside ↦ rw inside ((λ e. not_over file_size end inside), (λ w. refl))
      ])

check_tensors_iff :
    (start : ℕ) (file_size : ℤ) (ts : List TensorInfo)
    → All (IsSane start) ts
    → (check_tensors (pos start) file_size ts ≡ ok tt) ↔ All (IsWithin start file_size) ts
unfolding check_tensors compute_tensor_data_size
check_tensors_iff start file_size [] sane = (λ e. tt, λ e. refl)
check_tensors_iff start file_size (t ∷ ts) sane =
    let o = find_quant t.kind quant_types in
    let one = ends_within_iff start file_size t o sane.0 in
    let rest = check_tensors_iff start file_size ts sane.1 in
    elim (Bool-cases (ends_within (pos start) file_size t.offset (size_of o t.dimensions))) [
      | inl fits ↦ rw fits ((λ e. (one.0 fits, rest.0 e)), (λ w. rest.1 w.1))
      | inr beyond ↦ rw beyond ((λ e. absurd (cc)), (λ w. absurd (cc (one.1 w.0))))
    ]

rounded : (q r a : ℕ) → r < a → (q * a + r) / a ≡ q
rounded q r a below =
    let some_ : 0 < a = omega arith in
    mul-add-div_right some_ q r ∙ ap (λ m. q + m) (div-eq_of_lt below) ∙ omega arith

-- At a multiple, and between two.
round_whole : (q a : ℕ) → 0 < a → (q * a + a - 1) / a * a ≡ q * a
round_whole q a some_ =
    ap (λ m. m * a) (ap (λ m. m / a) (omega arith) ∙ rounded q (a - 1) a (omega arith))

round_part : (q r a : ℕ) → 0 < r → r < a → (q * a + r + a - 1) / a * a ≡ q * a + r + (a - r)
round_part q r a some_ below =
    ap (λ m. m * a) (ap (λ m. m / a) (omega arith) ∙ rounded (suc q) (r - 1) a (omega arith))
    ∙ omega arith

pub tensor_data_start-exact :
    (header_size alignment : ℕ)
    → header_size + alignment < 2 ^ 63
    → tensor_data_start (pos header_size) (header_size % alignment) alignment
      ≡ pos (align_up header_size alignment)
unfolding tensor_data_start
tensor_data_start-exact h a small =
    let q = h / a in
    let e : q * a + h % a ≡ h = omega (arith, div-add-mod h a) in
    elim (Bool-cases (a == 0)) [
      | inl none_ ↦ rw none_
      | inr some_ ↦
          let positive : 0 < a = ground arith in
          let below = mod-lt h positive in
          elim (Bool-cases (h % a == 0)) [
            | inl whole ↦
                let e' : q * a ≡ h = ground (arith, e) in
                rw (some_, whole)
                  (ap pos
                    (sym e' ∙ sym (round_whole q a positive) ∙ ap (λ n. (n + a - 1) / a * a) e'))
            | inr part ↦
                let some_part : 0 < h % a = ground arith in
                rw
                  (
                    some_,
                    part,
                    int64-pos (a - h % a) (omega arith),
                    int64-+ℤ h (a - h % a) (omega arith),
                  )
                  (ap pos (
                    ap (λ n. n + (a - h % a)) (sym e)
                    ∙ sym (round_part q (h % a) a some_part below)
                    ∙ ap (λ n. (n + a - 1) / a * a) e))
          ]
    ]

-- The check of the bounds accepts exactly the tensors of which each one of a known type ends
-- within the file, counted from the first multiple of the alignment after the header, where no
-- size or offset exceeds what a uint64 and an int64 hold.
pub validate_gguf_tensor_bounds_iff :
    (ts : List TensorInfo) (header_size alignment : ℕ) (file_size : ℤ)
    → header_size + alignment < 2 ^ 63
    → All (IsSane (align_up header_size alignment)) ts
    → (validate_gguf_tensor_bounds ts header_size alignment file_size ≡ ok tt)
      ↔ All (IsWithin (align_up header_size alignment) file_size) ts
unfolding validate_gguf_tensor_bounds
validate_gguf_tensor_bounds_iff ts header_size alignment file_size small sane =
    rw (tensor_data_start-exact header_size alignment small)
      (check_tensors_iff (align_up header_size alignment) file_size ts sane)
