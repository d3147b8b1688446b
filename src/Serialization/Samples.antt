-- ===== src/Serialization/Samples.antt =====
-- A concrete archive, with its law: two numbers for each primitive value, and for each byte of a
-- text two numbers before the two that end it. A lone number at the end is not read.
use blockchain_messaging_sys.Prelude.{
  ℕ, zero, suc, ◌≡◌, refl, true, false, List, [], ◌∷◌, ◌++◌, Option, none, some, Str, arith,
}
use blockchain_messaging_sys.Serialization.{Field, Archive, ArchiveLaws, NewlineLaws}

unfoldable pub encode_str : Str → Str → Str
encode_str [] rest = 2 ∷ 0 ∷ rest
encode_str (c ∷ cs) rest = 3 ∷ c ∷ encode_str cs rest

unfoldable pub encode : List Field → Str
unfolding encode_str
encode [] = []
encode (Field.num n ∷ fs) = 0 ∷ n ∷ encode fs
encode (Field.flag false ∷ fs) = 1 ∷ 0 ∷ encode fs
encode (Field.flag true ∷ fs) = 1 ∷ 1 ∷ encode fs
encode (Field.str s ∷ fs) = encode_str s (encode fs)

abbrev prepend : ℕ → ℕ → Option (List Field) → Option (List Field)
prepend t v none = none
prepend zero v (some fs) = some (Field.num v ∷ fs)
prepend (suc zero) zero (some fs) = some (Field.flag false ∷ fs)
prepend (suc zero) (suc v) (some fs) = some (Field.flag true ∷ fs)
prepend (suc (suc zero)) v (some fs) = some (Field.str [] ∷ fs)
prepend (suc (suc (suc t))) v (some (Field.str s ∷ fs)) = some (Field.str (v ∷ s) ∷ fs)
prepend (suc (suc (suc t))) v (some fs) = none

abbrev pub decode : Str → Option (List Field)
decode [] = some []
decode (t ∷ []) = some []
decode (t ∷ v ∷ rest) = prepend t v (decode rest)

decode-encode_str :
    (s rest : Str) (fs : List Field)
    → decode rest ≡ some fs
    → decode (encode_str s rest) ≡ some (Field.str s ∷ fs)
unfolding encode_str
decode-encode_str [] rest fs h = ground (arith, h)
decode-encode_str (c ∷ cs) rest fs h = ground (arith, decode-encode_str cs rest fs h)

decode-encode : (fs : List Field) → decode (encode fs) ≡ some fs
unfolding encode
decode-encode [] = refl
decode-encode (Field.num n ∷ fs) = ground (arith, decode-encode fs)
decode-encode (Field.flag false ∷ fs) = ground (arith, decode-encode fs)
decode-encode (Field.flag true ∷ fs) = ground (arith, decode-encode fs)
decode-encode (Field.str s ∷ fs) = decode-encode_str s (encode fs) fs (decode-encode fs)

abbrev pub sample_archive : Archive
sample_archive = record { encode = encode; decode = decode }

pub sample_archive-laws : ArchiveLaws sample_archive
sample_archive-laws = record { round_trip = decode-encode }

decode_prefix :
    (s : Str) (c : ℕ) (fs : List Field) (gs : List Field)
    → decode (encode fs ++ c ∷ []) ≡ some gs
    → decode (encode_str s (encode fs) ++ c ∷ []) ≡ some (Field.str s ∷ gs)
unfolding encode_str
decode_prefix [] c fs gs h = ground (arith, h)
decode_prefix (a ∷ s) c fs gs h = ground (arith, decode_prefix s c fs gs h)

decode_ended : (c : ℕ) (fs : List Field) → decode (encode fs ++ c ∷ []) ≡ some fs
unfolding encode
decode_ended c [] = refl
decode_ended c (Field.num n ∷ fs) = ground (arith, decode_ended c fs)
decode_ended c (Field.flag false ∷ fs) = ground (arith, decode_ended c fs)
decode_ended c (Field.flag true ∷ fs) = ground (arith, decode_ended c fs)
decode_ended c (Field.str s ∷ fs) = decode_prefix s c fs fs (decode_ended c fs)

pub sample_archive-ended : NewlineLaws sample_archive
sample_archive-ended = record { ended = decode_ended 10 }
