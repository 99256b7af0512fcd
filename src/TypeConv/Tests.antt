-- ===== src/TypeConv/Tests.antt =====
-- Bytes of one value.
use mc6801_tools.Base.{◌≡◌, refl, inl, inr, true, false, some, [], ◌∷◌, arith, ◌/◌, ◌%◌, ◌^◌}
use mc6801_tools.TypeConv.{typeconv_init, u2cn, u4cn}
use mc6801_tools.TypeConv.RoundTrip.{Stores, cnu4-u4cn, u2cn-big_endian}

cnu4-u4cn_example : Stores true true (1 ∷ 2 ∷ 3 ∷ 4 ∷ 5 ∷ []) 0x1234 2
cnu4-u4cn_example = cnu4-u4cn true true 1 2 3 4 (5 ∷ []) 0x1234 2 (inr (inl refl)) (omega arith)

u2cn-big_endian_example :
    (u2cn (typeconv_init true true) (9 ∷ 9 ∷ 9 ∷ 9 ∷ []) 0x1234 2
      ≡ some (0x1234 / 256 % 256 ∷ 0x1234 % 256 ∷ 9 ∷ 9 ∷ []))
    × (u2cn (typeconv_init true true) (9 ∷ 9 ∷ 9 ∷ 9 ∷ []) 0x1234 4
        ≡ some (
            0x1234 / 2 ^ 24 % 256 ∷ 0x1234 / 2 ^ 16 % 256 ∷ 0x1234 / 256 % 256 ∷ 0x1234 % 256 ∷ []))
u2cn-big_endian_example = u2cn-big_endian 9 9 9 9 [] 0x1234 (omega arith)

-- In the order (0, 1) the words of a long are swapped, and the bytes of a word are not.
mixed_order :
    u4cn (typeconv_init false true) (0 ∷ 0 ∷ 0 ∷ 0 ∷ []) 0x11223344 4
    ≡ some (0x22 ∷ 0x11 ∷ 0x44 ∷ 0x33 ∷ [])
unfolding u4cn typeconv_init
mixed_order = refl
