-- ===== src/Lines/Examples.antt =====
-- Tests of Lines.
use libudjat.Base.{ℕ, zero, suc, ◌≡◌, refl, true, false, some, [], ◌∷◌, arith, Bytes, codes}
use libudjat.Lines.Stream.{lines_of, open_line, feed, feed-lines}
use libudjat.Lines.{
  cut_line, drop_return, parse, handle_event, new_handler, input, unexpected_eof, bytes,
}

parse-two :
    parse (record new_handler { buffer = codes "ab\r\n\nc" })
    ≡ record new_handler { buffer = codes "c"; calls = input (codes "ab") ∷ input [] ∷ [] }
unfolding parse cut_line drop_return
parse-two = refl

feed-lines_example : feed ((b'a', codes "b\nc") ∷ (b'd', codes "\n") ∷ []) new_handler ≡ record {
  is_open = true;
  buffer = open_line [] (codes "ab\ncd\n");
  calls = lines_of [] (codes "ab\ncd\n");
}
feed-lines_example =
    feed-lines ((b'a', codes "b\nc") ∷ (b'd', codes "\n") ∷ [])
      (omega arith, (omega arith, (omega arith, (omega arith, (omega arith, (omega arith, tt))))))
      (omega arith, (omega arith, tt))

abbrev filled : ℕ → Bytes
filled zero = []
filled (suc n) = b'b' ∷ filled n

-- A line that fills the buffer ends in an error.
full-error :
    handle_event (some (bytes b'a' [])) false false (record new_handler { buffer = filled 255 })
    ≡ record new_handler { buffer = filled 255; calls = unexpected_eof ∷ [] }
unfolding handle_event
full-error = refl
