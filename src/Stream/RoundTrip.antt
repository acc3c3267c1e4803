-- ===== src/Stream/RoundTrip.antt =====
-- A message, written field by field and read field by field, in either byte order.
use net_flux.Base.{
  ℕ, ◌+◌, ◌≤◌, ◌≡◌, refl, sym, ap, ◌∙◌, List, [], ◌∷◌, ◌++◌, length, drop, length-append,
  append_assoc, take-append-drop, drop-drop, arith,
}
use net_flux.Base.Bytes.{copy_at, slice, slice-copy_at, drop-copy_at}
use net_flux.Stream.Defs.{
  Stream, ByteOrder, Io, ok, too_small, left, advance, new_stream, reset, store,
}
use net_flux.Stream.Encoding.Reads.{read_field_ok}
use net_flux.Stream.Encoding.{
  Field, Fits, encode, write_field, read_field, Holds, write_field_ok, left-store, store-append,
  store-nil, Holds-advance,
}

-- What follows a call that may have failed.
abbrev pub and_then {ℓ κ} :
    {A : Type ℓ} {B : Type κ} → Stream × Io A → (Stream → A → Stream × Io B) → Stream × Io B
and_then (s, ok a) f = f s a
and_then (s, too_small) f = (s, too_small)

unfoldable pub write_fields : ByteOrder → List Field → Stream → Stream × Io (Unit {0})
write_fields o [] s = (s, ok tt)
write_fields o (f ∷ fs) s = and_then (write_field o f s) (λ t _. write_fields o fs t)

-- The reader knows the shapes of the fields that come.
unfoldable pub read_fields : ByteOrder → List Field → Stream → Stream × Io (List Field)
read_fields o [] s = (s, ok [])
read_fields o (f ∷ fs) s =
    and_then (read_field o f s) (λ t g. and_then (read_fields o fs t) (λ u gs. (u, ok (g ∷ gs))))

abbrev pub AllFit : List Field → Type 0
AllFit [] = Unit
AllFit (f ∷ fs) = Fits f × AllFit fs

unfoldable pub encode_all : ByteOrder → List Field → List ℕ
encode_all o [] = []
encode_all o (f ∷ fs) = encode o f ++ encode_all o fs

write_fields_ok :
    (o : ByteOrder) (fs : List Field) (s : Stream)
    → length (encode_all o fs) ≤ left s
    → write_fields o fs s ≡ (store s (encode_all o fs), ok tt)
unfolding write_fields encode_all
write_fields_ok o [] s h = ap (λ t. (t, ok tt)) (sym (store-nil s))
write_fields_ok o (f ∷ fs) s h = rw (write_field_ok o f s (omega (arith, parts))) (
    write_fields_ok o fs (store s (encode o f)) (omega (arith, parts, left-store s (encode o f)))
    ∙ ap (λ t. (t, ok tt)) (store-append s (encode o f) (encode_all o fs)))
  where
    parts : length (encode o f ++ encode_all o fs) ≡ length (encode o f) + length (encode_all o fs)
    parts = length-append (encode o f) (encode_all o fs)

read_fields_ok :
    (o : ByteOrder) (fs : List Field) (s : Stream) (rest : List ℕ)
    → AllFit fs
    → Holds s (encode_all o fs) rest
    → read_fields o fs s ≡ (advance s (length (encode_all o fs)), ok fs)
unfolding read_fields encode_all
read_fields_ok o [] s rest fits h = ap (λ n. (record s { pos = n }, ok [])) (omega arith)
read_fields_ok o (f ∷ fs) s rest fits h =
    rw (read_field_ok o f s (encode_all o fs ++ rest) fits.0 front) (
      rw (read_fields_ok o fs (advance s (length (encode o f))) rest fits.1 behind) (
        ap (λ n. (record s { pos = n }, ok (f ∷ fs)))
          (omega (arith, length-append (encode o f) (encode_all o fs)))))
  where
    front : Holds s (encode o f) (encode_all o fs ++ rest)
    front = h ∙ append_assoc (encode o f) (encode_all o fs) rest

    behind : Holds (advance s (length (encode o f))) (encode_all o fs) rest
    behind = Holds-advance s (encode o f) (encode_all o fs ++ rest) front

-- Where bytes were stored they lie, with the old bytes behind them.
pub Holds-store :
    (s : Stream) (bs : List ℕ)
    → s.pos + length bs ≤ length s.buff
    → drop s.pos (copy_at s.buff s.pos bs) ≡ bs ++ drop (s.pos + length bs) s.buff
unfolding slice
Holds-store s bs h =
    sym (take-append-drop (length bs) (drop s.pos (copy_at s.buff s.pos bs)))
    ∙ ap (λ l. l ++ drop (length bs) (drop s.pos (copy_at s.buff s.pos bs)))
        (slice-copy_at s.buff s.pos bs h)
    ∙ ap (λ l. bs ++ l) (drop-copy_at s.buff s.pos bs ∙ drop-drop s.pos (length bs) s.buff)

-- In either byte order, fields whose values fit their Go types, written one after another into a
-- new stream whose buffer has room for their encodings, are all accepted; and after a `Reset` to
-- the written buffer, the reads of the same shapes return the same fields, and end where the
-- writes ended.
pub read-write_fields :
    (o : ByteOrder) (fs : List Field) (bytes : List ℕ)
    → AllFit fs
    → length (encode_all o fs) ≤ length bytes
    → let w = write_fields o fs (new_stream bytes) in
      (w.1 ≡ ok tt) × (read_fields o fs (reset w.0 w.0.buff) ≡ (w.0, ok fs))
unfolding new_stream reset left
read-write_fields o fs bytes fits room =
    let e = write_fields_ok o fs (new_stream bytes) (omega arith) in
    rw e (
      refl,
      read_fields_ok o fs (record { pos = 0; buff = copy_at bytes 0 (encode_all o fs) })
          (drop (length (encode_all o fs)) bytes) fits lies,
    )
  where
    lies :
        copy_at bytes 0 (encode_all o fs) ≡ encode_all o fs ++ drop (length (encode_all o fs)) bytes
    lies =
        Holds-store (new_stream bytes) (encode_all o fs) (omega arith)
        ∙ ap (λ n. encode_all o fs ++ drop n bytes) (omega arith)
