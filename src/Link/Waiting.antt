-- ===== src/Link/Waiting.antt =====
-- The requests to the writer without the buffer, and the reserved bytes that wait behind them.
use mc6801_tools.Base.{
  ℕ, ◌/◌, ◌%◌, ◌^◌, ◌≤◌, ◌≡◌, refl, ◌∙◌, true, List, [], ◌∷◌, inl, inr, bit_or, arith,
}
use mc6801_tools.Base.Bytes.{value_bytes}
use mc6801_tools.TypeConv.{char_of}
use mc6801_tools.As.Const.{obj_set_seg}
use mc6801_tools.As.Line.{Address}
use mc6801_tools.As.GenObj.Writer.{
  Writer, put, special, absolute, reserve, when_on, drop_abs, drop_rmb,
}
use mc6801_tools.As.GenObj.Addresses.{absolutes, announce, offset_operand, symbol_operand, operand}
use mc6801_tools.Ld.LinkMod.{ModStruct}
use mc6801_tools.Ld.LinkMod.Commands.{IsSize}
use mc6801_tools.Link.{Request, code, rmb, address, segment, IsAllowed, waiting}

-- A request, to the writer without the buffer.
unfoldable pub write_request : Request → Writer → Writer
write_request (code b) = when_on (absolute b)
write_request (rmb n) = when_on (reserve n)
write_request (address pcrflag adr size) = operand pcrflag adr size
write_request (segment seg) = when_on (special (char_of (bit_or seg obj_set_seg) ∷ []))

unfoldable pub write_requests : List Request → Writer → Writer
write_requests [] w = w
write_requests (r ∷ rs) w = write_requests rs (write_request r w)

on-absolute-arrext : (b : ℕ) (w : Writer) → (when_on (absolute b) w).arrext ≡ w.arrext
unfolding when_on absolute drop_rmb drop_abs
on-absolute-arrext b w = ground arith

absolutes-arrext : (bs : List ℕ) (w : Writer) → (absolutes bs w).arrext ≡ w.arrext
unfolding absolutes
absolutes-arrext [] w = refl
absolutes-arrext (b ∷ bs) w = absolutes-arrext bs (when_on (absolute b) w) ∙ on-absolute-arrext b w

on-absolute-rmbcount :
    (b : ℕ) (w : Writer) → w.objectc ≡ true → (when_on (absolute b) w).rmbcount ≡ 0
unfolding when_on absolute drop_rmb drop_abs
on-absolute-rmbcount b w on = ground arith

on-absolute-objectc : (b : ℕ) (w : Writer) → (when_on (absolute b) w).objectc ≡ w.objectc
unfolding when_on absolute drop_rmb drop_abs
on-absolute-objectc b w = ground arith

absolutes-rmbcount :
    (b : ℕ) (bs : List ℕ) (w : Writer) → w.objectc ≡ true → (absolutes (b ∷ bs) w).rmbcount ≡ 0
unfolding absolutes
absolutes-rmbcount b [] w on = on-absolute-rmbcount b w on
absolutes-rmbcount b (c ∷ bs) w on =
    absolutes-rmbcount c bs (when_on (absolute b) w) (on-absolute-objectc b w ∙ on)

special-rmbcount :
    (bs : List ℕ) (w : Writer) → w.objectc ≡ true → (when_on (special bs) w).rmbcount ≡ 0
unfolding when_on special drop_abs drop_rmb put
special-rmbcount bs w on = ground arith

pub write_request-arrext : (r : Request) (w : Writer) → (write_request r w).arrext ≡ w.arrext
unfolding write_request
write_request-arrext (code b) w = on-absolute-arrext b w
write_request-arrext (rmb n) w = unfold when_on reserve drop_abs in ground arith
write_request-arrext (segment seg) w = unfold when_on special drop_abs drop_rmb put in ground arith
write_request-arrext (address pcrflag adr size) w =
    unfold operand announce offset_operand symbol_operand when_on special drop_abs drop_rmb put in
    ground (arith, absolutes-arrext (value_bytes size adr.offset) w)

operand-rmbcount :
    (pcrflag : ℕ) (adr : Address) (size : ℕ) (w : Writer)
    → w.objectc ≡ true
    → IsSize size
    → (operand pcrflag adr size w).rmbcount ≡ 0
unfolding operand offset_operand symbol_operand announce when_on special drop_abs drop_rmb put
    value_bytes
operand-rmbcount pcrflag adr size w on (inl e) =
    rw e (ground (arith, absolutes-rmbcount (adr.offset / 256 ^ 0 % 256) [] w on))
operand-rmbcount pcrflag adr size w on (inr e) = rw e (
    ground (
      arith,
      absolutes-rmbcount (adr.offset / 256 ^ 1 % 256) (adr.offset / 256 ^ 0 % 256 ∷ []) w on,
    ))

-- No more waits than `waiting` says.
module _ (header : ℕ) (m : ModStruct) (arrext : List ℕ) where
  pub write_request-waiting :
      (r : Request) (w : Writer)
      → w.objectc ≡ true
      → IsAllowed header m arrext r
      → (write_request r w).rmbcount ≤ waiting r w.rmbcount
  unfolding write_request
  write_request-waiting (code b) w on ok = omega (arith, on-absolute-rmbcount b w on)
  write_request-waiting (rmb n) w on ok = unfold when_on reserve drop_abs in ground arith
  write_request-waiting (segment seg) w on ok =
      omega (arith, special-rmbcount (char_of (bit_or seg obj_set_seg) ∷ []) w on)
  write_request-waiting (address pcrflag adr size) w on (h, p, known) =
      omega (arith, operand-rmbcount pcrflag adr size w on h)
