-- ===== src/Stream/Encoding/Reads.antt =====
-- Reads where the bytes of a field lie at the position.
use net_flux.Base.{
  ℕ, ◌+◌, ◌≤◌, ◌<◌, ◌^◌, ◌≡◌, sym, ap, ◌∙◌, subst, List, [], ◌∷◌, ◌++◌, length, take, drop,
  length-append, append_assoc, take-append-drop, length-take, take_length, arith,
}
use net_flux.Base.Bytes.{slice}
use net_flux.Stream.Defs.{
  Stream, ByteOrder, ok, left, advance, put_uint, get_uint, read_byte, read_uint, read_buff,
  read_string, uint16,
}
use net_flux.Stream.Encoding.{
  Field, Fits, Holds, Holds-advance, Holds-left, Holds-slice, buff, byte, encode, get_or-Holds,
  get_uint-put_uint, lacks_false, length-put_uint, read_field, string, uint,
}

read_uint_ok :
    (o : ByteOrder) (n v : ℕ) (s : Stream) (rest : List ℕ)
    → v < 256 ^ n
    → Holds s (put_uint o n v) rest
    → read_uint o n s ≡ (advance s n, ok v)
unfolding read_uint
read_uint_ok o n v s rest fits h =
    rw (lacks_false (left s) n (omega (arith, Holds-left s (put_uint o n v) rest h, width)))
      (ap (λ x. (advance s n, ok x)) (ap (get_uint o) bytes ∙ get_uint-put_uint o n v fits))
  where
    width : length (put_uint o n v) ≡ n
    width = length-put_uint o n v

    bytes : slice s.buff s.pos n ≡ put_uint o n v
    bytes =
        subst (λ k. slice s.buff s.pos k ≡ put_uint o n v) width
          (Holds-slice s (put_uint o n v) rest h)

read_buff_ok :
    (bs : List ℕ) (s : Stream) (rest : List ℕ)
    → Holds s bs rest
    → read_buff (length bs) s ≡ (advance s (length bs), ok bs)
unfolding read_buff
read_buff_ok bs s rest h =
    rw (lacks_false (left s) (length bs) (Holds-left s bs rest h), Holds-slice s bs rest h)

read_byte_ok :
    (b : ℕ) (s : Stream) (rest : List ℕ) → Holds s (b ∷ []) rest → read_byte s ≡ (advance s 1, ok b)
unfolding read_byte
read_byte_ok b s rest h =
    rw (lacks_false (left s) 1 (Holds-left s (b ∷ []) rest h), get_or-Holds s.buff s.pos b rest h)

-- The first n of the bytes at the position, where no more are asked for.
read_buff-take :
    (n : ℕ) (bs : List ℕ) (s : Stream) (rest : List ℕ)
    → n ≤ length bs
    → Holds s bs rest
    → read_buff n s ≡ (advance s n, ok (take n bs))
read_buff-take n bs s rest le h =
    subst (λ k. read_buff k s ≡ (advance s k, ok (take n bs))) width
      (read_buff_ok (take n bs) s (drop n bs ++ rest) split)
  where
    width : length (take n bs) ≡ n
    width = omega (arith, length-take n bs)

    split : Holds s (take n bs) (drop n bs ++ rest)
    split =
        h
        ∙ ap (λ l. l ++ rest) (sym (take-append-drop n bs))
        ∙ append_assoc (take n bs) (drop n bs) rest

-- The string that comes back has its length cut to sixteen bits.
pub read_string_ok :
    (o : ByteOrder) (bs : List ℕ) (s : Stream) (rest : List ℕ)
    → Holds s (put_uint o 2 (uint16 (length bs)) ++ bs) rest
    → read_string o s ≡ (advance s (2 + uint16 (length bs)), ok (take (uint16 (length bs)) bs))
unfolding read_string
read_string_ok o bs s rest h = rw (read_uint_ok o 2 n s (bs ++ rest) (omega arith) front) (
    read_buff-take n bs (advance s 2) rest (omega arith) behind
    ∙ ap (λ k. (record s { pos = k }, ok (take n bs))) (omega arith))
  where
    n : ℕ
    n = uint16 (length bs)

    front : Holds s (put_uint o 2 n) (bs ++ rest)
    front = h ∙ append_assoc (put_uint o 2 n) bs rest

    behind : Holds (advance s 2) bs rest
    behind =
        subst (λ k. drop (s.pos + k) s.buff ≡ bs ++ rest) (length-put_uint o 2 n)
          (Holds-advance s (put_uint o 2 n) (bs ++ rest) front)

-- A read where the field's bytes lie gives the field back, and moves behind them.
pub read_field_ok :
    (o : ByteOrder) (f : Field) (s : Stream) (rest : List ℕ)
    → Fits f
    → Holds s (encode o f) rest
    → read_field o f s ≡ (advance s (length (encode o f)), ok f)
unfolding read_field encode
read_field_ok o (byte b) s rest fits h = rw (read_byte_ok b s rest h)
read_field_ok o (uint n v) s rest fits h =
    rw (read_uint_ok o n v s rest fits h, length-put_uint o n v)
read_field_ok o (buff bs) s rest fits h = rw (read_buff_ok bs s rest h)
read_field_ok o (string bs) s rest fits h =
    rw (read_string_ok o bs s rest h, length-append, length-put_uint, short, take_length bs)
  where
    short : uint16 (length bs) ≡ length bs
    short = omega arith
