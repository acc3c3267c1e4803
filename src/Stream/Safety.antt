-- ===== src/Stream/Safety.antt =====
-- What no call on a stream can break.
use net_flux.Base.{
  ℕ, ◌≤◌, ◌≡◌, sym, ap, ◌∙◌, List, [], ◌∷◌, length, length-set, take, take-set, take-take, arith,
}
use net_flux.Base.Bytes.{length-copy_at, take-copy_at}
use net_flux.Stream.Defs.{
  Stream, ByteOrder, Io, ok, too_small, IsValid, left, new_stream, advance, store, read_byte,
  read_uint, read_buff, read_string, copy_buff, write_byte, write_uint, write_bytes, write_string,
  put_uint, uint16,
}
use net_flux.Stream.Defs
use net_flux.Stream.Encoding.{length-put_uint}

-- A call of the interfaces `ReadStream` and `WriteStream` that moves data.
pub data Call : Type 0 where
  read_byte_call read_string_call : Call
  read_uint_call read_buff_call write_byte_call : ℕ → Call
  write_uint_call : ℕ → ℕ → Call
  copy_buff_call write_buff_call write_string_call : List ℕ → Call

unfoldable pub step : ByteOrder → Call → Stream → Stream
step o read_byte_call s = (read_byte s).0
step o read_string_call s = (read_string o s).0
step o (read_uint_call n) s = (read_uint o n s).0
step o (read_buff_call n) s = (read_buff n s).0
step o (write_byte_call b) s = (write_byte b s).0
step o (write_uint_call n v) s = (write_uint o n v s).0
step o (copy_buff_call b) s = (copy_buff b s).0
step o (write_buff_call bs) s = (write_bytes bs s).0
step o (write_string_call bs) s = (write_string o bs s).0

unfoldable pub run : ByteOrder → List Call → Stream → Stream
run o [] s = s
run o (c ∷ cs) s = run o cs (step o c s)

-- The position stays within the buffer and never goes back; the buffer keeps its length and the
-- bytes before the position.
pub record Keeps (s t : Stream) : Type 0 where
  pub within : t.pos ≤ length t.buff
  pub forward : s.pos ≤ t.pos
  pub same_size : length t.buff ≡ length s.buff
  pub untouched : take s.pos t.buff ≡ take s.pos s.buff

module _ (o : ByteOrder) (s : Stream) (v : IsValid s) where
  read_buff-Keeps : (n : ℕ) → Keeps s (read_buff n s).0
  unfolding read_buff left
  read_buff-Keeps n = ground arith

  write_bytes-Keeps : (bs : List ℕ) → Keeps s (write_bytes bs s).0
  unfolding write_bytes left
  write_bytes-Keeps bs =
      ground (arith, length-copy_at s.buff s.pos bs, take-copy_at s.buff s.pos bs)

  read_uint-Keeps : (n : ℕ) → Keeps s (read_uint o n s).0
  unfolding read_uint left
  read_uint-Keeps n = ground arith

  write_uint-Keeps : (n x : ℕ) → Keeps s (write_uint o n x s).0
  unfolding write_uint left
  write_uint-Keeps n x = ground (
    arith,
    length-copy_at s.buff s.pos (put_uint o n x),
    take-copy_at s.buff s.pos (put_uint o n x),
    length-put_uint o n x,
  )

-- What agrees up to a position agrees up to an earlier one.
take_earlier : (p q : ℕ) (xs ys : List ℕ) → p ≤ q → take q xs ≡ take q ys → take p xs ≡ take p ys
take_earlier p q xs ys h same = sym (take-take p q xs h) ∙ ap (take p) same ∙ take-take p q ys h

Keeps-trans : {s t u : Stream} → Keeps s t → Keeps t u → Keeps s u
Keeps-trans {s} {t} {u} h k = record {
  within = k.within;
  forward = omega arith;
  same_size = k.same_size ∙ h.same_size;
  untouched = take_earlier s.pos t.pos u.buff t.buff h.forward k.untouched ∙ h.untouched;
}

module _ (o : ByteOrder) (s : Stream) (v : IsValid s) where
  read_string-Keeps : Keeps s (read_string o s).0
  unfolding read_string
  read_string-Keeps = go (read_uint o 2 s) (read_uint-Keeps o s v 2)
    where
      go : (r : Stream × Io ℕ) → Keeps s r.0 → Keeps s (Defs.read_string_body r).0
      go (t, ok n) k = Keeps-trans k (read_buff-Keeps o t k.within n)
      go (t, too_small) k = k

  write_string-Keeps : (bs : List ℕ) → Keeps s (write_string o bs s).0
  unfolding write_string
  write_string-Keeps bs =
      go (write_uint o 2 (uint16 (length bs)) s) (write_uint-Keeps o s v 2 (uint16 (length bs)))
    where
      go : (r : Stream × Io (Unit {0})) → Keeps s r.0 → Keeps s (Defs.write_string_body bs r).0
      go (t, ok _) k = Keeps-trans k (write_bytes-Keeps o t k.within bs)
      go (t, too_small) k = k

  pub step-Keeps : (c : Call) → Keeps s (step o c s)
  unfolding step read_byte write_byte copy_buff left
  step-Keeps read_byte_call = ground arith
  step-Keeps read_string_call = read_string-Keeps
  step-Keeps (read_uint_call n) = read_uint-Keeps o s v n
  step-Keeps (read_buff_call n) = read_buff-Keeps o s v n
  step-Keeps (write_byte_call b) =
      ground (arith, length-set s.buff s.pos b, take-set s.buff s.pos b)
  step-Keeps (write_uint_call n x) = write_uint-Keeps o s v n x
  step-Keeps (copy_buff_call b) = ground arith
  step-Keeps (write_buff_call bs) = write_bytes-Keeps o s v bs
  step-Keeps (write_string_call bs) = write_string-Keeps bs
