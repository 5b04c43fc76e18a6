-- ===== src/Common/Bytes.antt =====
-- Sequences of bytes, and the hashes of common/types.go: 32 bytes.
use paradigm.Prelude.{
  ℕ, ◌-◌, ◌≡◌, refl, ◌∙◌, ◌↔◌, Bool, true, false, ◌&&◌, List, [], ◌∷◌, ◌++◌, arith, eqb, eqb_iff,
  length, drop, replicate, length-append, length-drop, length-replicate, Comparable, nat_eq, int_eq,
  string_eq, pair_eq,
}

abbrev pub Bytes : Type 0
Bytes = List ℕ

abbrev pub Hash : Type 0
Hash = Bytes

abbrev pub hash_length : ℕ
hash_length = 32

-- `Equal`
unfoldable pub bytes_equal : Bytes → Bytes → Bool
bytes_equal [] [] = true
bytes_equal [] (y ∷ ys) = false
bytes_equal (x ∷ xs) [] = false
bytes_equal (x ∷ xs) (y ∷ ys) = eqb x y && bytes_equal xs ys

pub bytes_equal_iff : (xs ys : Bytes) → (bytes_equal xs ys ≡ true) ↔ (xs ≡ ys)
unfolding bytes_equal
bytes_equal_iff [] [] = (λ h. refl, λ h. refl)
bytes_equal_iff [] (y ∷ ys) = (λ h. cc, λ h. cc)
bytes_equal_iff (x ∷ xs) [] = (λ h. cc, λ h. cc)
bytes_equal_iff (x ∷ xs) (y ∷ ys) = ground (arith, eqb_iff x y, bytes_equal_iff xs ys)

instance abbrev pub bytes_eq : Comparable Bytes
bytes_eq = record { equal = bytes_equal; equal_iff = bytes_equal_iff }

-- `BytesToHash`: the last 32 bytes, with zeros before fewer
unfoldable pub bytes_to_hash : Bytes → Hash
bytes_to_hash b = replicate (hash_length - length b) 0 ++ drop (length b - hash_length) b

pub bytes_to_hash-hash : (h : Hash) → length h ≡ hash_length → bytes_to_hash h ≡ h
unfolding bytes_to_hash
bytes_to_hash-hash h e = rw e refl

pub length-bytes_to_hash : (b : Bytes) → length (bytes_to_hash b) ≡ hash_length
unfolding bytes_to_hash
length-bytes_to_hash b =
    length-append (replicate (hash_length - length b) 0) (drop (length b - hash_length) b)
    ∙ omega (
      arith,
      length-replicate {A = ℕ} (hash_length - length b) 0,
      length-drop (length b - hash_length) b,
    )
