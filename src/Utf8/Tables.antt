-- ===== src/Utf8/Tables.antt =====
-- The constants and the two tables of api/utf8.hpp.
use jule.Common.{ℕ, List, ◌∷◌, ◌++◌, get_or, replicate}

abbrev pub rune_error : ℕ
rune_error = 65533

abbrev pub maskx : ℕ
maskx = 63

abbrev pub mask2 : ℕ
mask2 = 31

abbrev pub mask3 : ℕ
mask3 = 15

abbrev pub mask4 : ℕ
mask4 = 7

abbrev pub locb : ℕ
locb = 128

abbrev pub hicb : ℕ
hicb = 191

abbrev pub utf8_xx : ℕ
utf8_xx = 241

abbrev pub utf8_as : ℕ
utf8_as = 240

abbrev pub utf8_s1 : ℕ
utf8_s1 = 2

abbrev pub utf8_s2 : ℕ
utf8_s2 = 19

abbrev pub utf8_s3 : ℕ
utf8_s3 = 3

abbrev pub utf8_s4 : ℕ
utf8_s4 = 35

abbrev pub utf8_s5 : ℕ
utf8_s5 = 52

abbrev pub utf8_s6 : ℕ
utf8_s6 = 4

abbrev pub utf8_s7 : ℕ
utf8_s7 = 68

abbrev pub rune1_max : ℕ
rune1_max = 127

abbrev pub rune2_max : ℕ
rune2_max = 2047

abbrev pub rune3_max : ℕ
rune3_max = 65535

abbrev pub tx : ℕ
tx = 128

abbrev pub t2 : ℕ
t2 = 192

abbrev pub t3 : ℕ
t3 = 224

abbrev pub t4 : ℕ
t4 = 240

abbrev pub max_rune : ℕ
max_rune = 1114111

abbrev pub surrogate_min : ℕ
surrogate_min = 55296

abbrev pub surrogate_max : ℕ
surrogate_max = 57343

-- `utf8_first`, its runs of equal entries written with their lengths: the entries of the ASCII
-- bytes, and those of the others.
abbrev first_ascii : List ℕ
first_ascii = replicate 128 utf8_as

abbrev first_upper : List ℕ
first_upper =
    replicate 66 utf8_xx
    ++ (replicate 30 utf8_s1
        ++ (utf8_s2
            ∷ (replicate 12 utf8_s3
                ++ (utf8_s4
                    ∷ utf8_s3
                    ∷ utf8_s3
                    ∷ utf8_s5
                    ∷ utf8_s6
                    ∷ utf8_s6
                    ∷ utf8_s6
                    ∷ utf8_s7
                    ∷ replicate 11 utf8_xx))))

unfoldable pub utf8_first : ℕ → ℕ
utf8_first b = get_or (first_ascii ++ first_upper) b 0

pub record AcceptRange : Type 0 where
  pub lo : ℕ
  pub hi : ℕ

abbrev range : ℕ → ℕ → AcceptRange
range a b = record { lo = a; hi = b }

-- Five entries are given; the rest of the array of 16 is zero.
abbrev accept_table : List AcceptRange
accept_table =
    range locb hicb
    ∷ range 0xA0 hicb
    ∷ range locb 0x9F
    ∷ range 0x90 hicb
    ∷ range locb 0x8F
    ∷ replicate 11 (range 0 0)

unfoldable pub utf8_accept_range : ℕ → AcceptRange
utf8_accept_range k = get_or accept_table k (range 0 0)
