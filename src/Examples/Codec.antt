-- ===== src/Examples/Codec.antt =====
-- A notation for manifests that can be read back, for the parameters of Manager that stand for JSON.
use Prim.Native.Nat.{compare, lt, eq, gt}
use Prim.Native.Char.{Char, char, code, IsLt, IsScalar}
use text.Mathlib.TextBridge.{to_list, of_list, of_list-to_list}
use inference_budget_control.Prelude.{
  ℕ, zero, suc, List, [], ◌∷◌, ◌++◌, String, ◌≡◌, refl, sym, ◌∙◌, ap, Ordering, Option, none, some,
  length, ◌>>=◌,
}
use inference_budget_control.Prelude.Dict.{Dict}
use inference_budget_control.Prelude.Bytes.{append_assoc, append_nil}
use inference_budget_control.Manager.{Bytes, FileManifest}

-- A value is written so that it can be read from the front of what is written.
record Coder (A : Type 0) : Type 1 where
  put : A → Bytes
  get : Bytes → Option (A × Bytes)
  law : (a : A) (rest : Bytes) → get (put a ++ rest) ≡ some (a, rest)

abbrev number_get : Bytes → Option (ℕ × Bytes)
number_get [] = none
number_get (n ∷ rest) = some (n, rest)

abbrev number : Coder ℕ
number = record { put = λ n. n ∷ []; get = number_get; law = λ n rest. refl }

module _ {A B : Type 0} (f : A → B) (g : B → A) where
  abbrev map_first : Option (A × Bytes) → Option (B × Bytes)
  map_first none = none
  map_first (some (a, rest)) = some (f a, rest)

  -- What is written of `b` is what is written of `g b`.
  abbrev convert : Coder A → ((b : B) → f (g b) ≡ b) → Coder B
  convert c back = record {
    put = λ b. c.put (g b);
    get = λ input. map_first (c.get input);
    law = λ b rest. ap map_first (c.law (g b) rest) ∙ ap (λ x. some (x, rest)) (back b);
  }

module _ {A B : Type 0} (c : Coder A) (d : Coder B) where
  abbrev pair_get : Bytes → Option ((A × B) × Bytes)
  pair_get input =
      c.get input >>= λ first. d.get first.1 >>= λ second. some ((first.0, second.0), second.1)

  abbrev pair : Coder (A × B)
  pair = record {
    put = λ p. c.put p.0 ++ d.put p.1;
    get = pair_get;
    law = λ p rest.
        ap pair_get (append_assoc (c.put p.0) (d.put p.1) rest)
        ∙ rw (c.law p.0 (d.put p.1 ++ rest), d.law p.1 rest) refl;
  }

module _ {A : Type 0} (c : Coder A) where
  abbrev put_all : List A → Bytes
  put_all [] = []
  put_all (x ∷ xs) = c.put x ++ put_all xs

  abbrev get_all : ℕ → Bytes → Option (List A × Bytes)
  get_all zero input = some ([], input)
  get_all (suc n) input =
      let next = get_all n in
      c.get input >>= λ first. next first.1 >>= λ others. some (first.0 ∷ others.0, others.1)

  get_all-put_all :
      (xs : List A) (rest : Bytes) → get_all (length xs) (put_all xs ++ rest) ≡ some (xs, rest)
  get_all-put_all [] rest = refl
  get_all-put_all (x ∷ xs) rest =
      ap (get_all (suc (length xs))) (append_assoc (c.put x) (put_all xs) rest)
      ∙ rw (c.law x (put_all xs ++ rest), get_all-put_all xs rest) refl

  abbrev list_get : Bytes → Option (List A × Bytes)
  list_get [] = none
  list_get (n ∷ rest) = get_all n rest

  abbrev list : Coder (List A)
  list = record { put = λ xs. length xs ∷ put_all xs; get = list_get; law = get_all-put_all }

-- The clauses of IsScalar.
abbrev BothLt : Ordering → Ordering → Type 0
BothLt lt o = IsLt o
BothLt eq o = ⊥
BothLt gt o = ⊥

abbrev ScalarAt : Ordering → Ordering → Ordering → Type 0
ScalarAt lt o p = Unit
ScalarAt eq o p = BothLt o p
ScalarAt gt o p = BothLt o p

abbrev find_lt : (o : Ordering) → Option (IsLt o)
find_lt lt = some tt
find_lt eq = none
find_lt gt = none

abbrev find_both : (o p : Ordering) → Option (BothLt o p)
find_both lt p = find_lt p
find_both eq p = none
find_both gt p = none

abbrev find_scalar : (o p q : Ordering) → Option (ScalarAt o p q)
find_scalar lt p q = some tt
find_scalar eq p q = find_both p q
find_scalar gt p q = find_both p q

find_lt_lem : (o : Ordering) (h : IsLt o) → find_lt o ≡ some h
find_lt_lem lt h = refl
find_lt_lem eq h = absurd h
find_lt_lem gt h = absurd h

find_both_lem : (o p : Ordering) (h : BothLt o p) → find_both o p ≡ some h
find_both_lem lt p h = find_lt_lem p h
find_both_lem eq p h = absurd h
find_both_lem gt p h = absurd h

find_scalar_lem : (o p q : Ordering) (h : ScalarAt o p q) → find_scalar o p q ≡ some h
find_scalar_lem lt p q h = refl
find_scalar_lem eq p q h = find_both_lem p q h
find_scalar_lem gt p q h = find_both_lem p q h

abbrev with_scalar : (n : ℕ) → Option (IsScalar n) → Bytes → Option (Char × Bytes)
with_scalar n none rest = none
with_scalar n (some h) rest = some (char n h, rest)

abbrev char_get : Bytes → Option (Char × Bytes)
char_get [] = none
char_get (n ∷ rest) =
    with_scalar n (find_scalar (compare n 55296) (compare 57343 n) (compare n 1114112)) rest

char_law : (c : Char) (rest : Bytes) → char_get (code c ∷ rest) ≡ some (c, rest)
char_law (char n h) rest =
    ap (λ o. with_scalar n o rest)
      (find_scalar_lem (compare n 55296) (compare 57343 n) (compare n 1114112) h)

abbrev character : Coder Char
character = record { put = λ c. code c ∷ []; get = char_get; law = char_law }

abbrev word : Coder String
word = convert of_list to_list (list character) of_list-to_list

abbrev manifest_of : Dict ℕ × Dict String → FileManifest
manifest_of p = record { files = p.0; checksums = p.1 }

abbrev manifest_parts : FileManifest → Dict ℕ × Dict String
manifest_parts m = (m.files, m.checksums)

abbrev manifest : Coder FileManifest
manifest =
    convert manifest_of manifest_parts (pair (list (pair word number)) (list (pair word word)))
      (λ m. refl)

abbrev value_of : Option (FileManifest × Bytes) → Option FileManifest
value_of none = none
value_of (some (m, rest)) = some m

pub encode : FileManifest → Bytes
encode m = manifest.put m

pub decode : Bytes → Option FileManifest
decode input = value_of (manifest.get input)

pub decode-encode : (m : FileManifest) → decode (encode m) ≡ some m
unfolding encode decode
decode-encode m =
    ap (λ b. value_of (manifest.get b)) (sym (append_nil (encode m)))
    ∙ ap value_of (manifest.law m [])
