-- ===== src/Stream/IoBuf/Holds.antt =====
-- The buffer as two queues: the bytes to be sent, and the bytes to be parsed.
use self_db_mini.Base.{
  ℕ, ◌+◌, ◌-◌, ◌%◌, ◌^◌, ◌<◌, ◌≤◌, ◌≡◌, refl, sym, ap, ap₂, subst, ◌∙◌, Bool, true, false, ◌&&◌,
  some, List, [], ◌∷◌, ◌++◌, ltb, leb, ◌==◌, take, drop, length, length-append, length-take,
  length-drop, take-append, take-append_le, drop-append, take-append-drop, append_assoc, arith,
  if_intro,
}
use self_db_mini.Base.Outcome.{Outcome, done, assert, ◌>>◌}
use self_db_mini.Stream.IoBuf.{
  IoBuf, sub32, iobuf_sane, iobuf_amount_pending, iobuf_amount_parse, iobuf_amount_recv,
  iobuf_tag_send, iobuf_tag_skip, move_to_start, iobuf_try_resync,
}

-- In a buffer of `len` bytes, `pending` stands before `parse_pos` and `unparsed` behind it.
pub record Holds (len : ℕ) (io : IoBuf) (pending unparsed : List ℕ) : Type 0 where
  pub gone : List ℕ
  pub free : List ℕ
  pub in_order : io.buf ≡ gone ++ (pending ++ (unparsed ++ free))
  pub size : length io.buf ≡ len
  pub fits : len < 2 ^ 32
  pub done_at : io.done_pos ≡ length gone
  pub parse_at : io.parse_pos ≡ io.done_pos + length pending
  pub recv_at : io.recv_pos ≡ io.parse_pos + length unparsed

assert_passes {ℓ} : {B : Type ℓ} (b : Bool) (m : Outcome B) → b ≡ true → (assert b >> m) ≡ m
assert_passes true m h = refl
assert_passes false m h = absurd (cc h)

pub length_zero {ℓ} : {A : Type ℓ} (xs : List A) → length xs ≡ 0 → xs ≡ []
length_zero [] h = refl
length_zero (x ∷ xs) h = absurd (omega arith)

-- Bytes go from the second queue to the first.
regroup : (n : ℕ) (p u f : List ℕ) → p ++ (u ++ f) ≡ (p ++ take n u) ++ (drop n u ++ f)
regroup n p u f =
    ap (λ z. p ++ (z ++ f)) (sym (take-append-drop n u))
    ∙ ap (λ z. p ++ z) (append_assoc (take n u) (drop n u) f)
    ∙ sym (append_assoc p (take n u) (drop n u ++ f))

module _ {len : ℕ} {io : IoBuf} {pending unparsed : List ℕ}
    (h : Holds len io pending unparsed) where
  pub recv-le : io.recv_pos ≤ len
  recv-le = omega (
    arith,
    h.size,
    h.done_at,
    h.parse_at,
    h.recv_at,
    ap length h.in_order,
    length-append h.gone (pending ++ (unparsed ++ h.free)),
    length-append pending (unparsed ++ h.free),
    length-append unparsed h.free,
  )

  pub amount_pending : iobuf_amount_pending io ≡ length pending
  unfolding iobuf_amount_pending
  amount_pending = omega (arith, recv-le, h.fits, h.parse_at, h.recv_at)

  pub amount_parse : iobuf_amount_parse io ≡ length unparsed
  unfolding iobuf_amount_parse
  amount_parse = omega (arith, recv-le, h.fits, h.parse_at, h.recv_at)

  pub amount_recv : iobuf_amount_recv len io ≡ len - io.recv_pos
  unfolding iobuf_amount_recv
  amount_recv = omega (arith, recv-le, h.fits)

  pub sane : iobuf_sane len (some io) ≡ true
  unfolding iobuf_sane
  sane = ground (arith, recv-le, h.parse_at, h.recv_at)

  tag_send_passes :
      (n : ℕ)
      → 0 < n
      → n ≤ length unparsed
      → iobuf_tag_send n io ≡ done (record io { parse_pos = io.parse_pos + n })
  unfolding iobuf_tag_send
  tag_send_passes n pos l =
      assert_passes (ltb 0 n && leb n (iobuf_amount_parse io)) _ (ground (arith, amount_parse))
      ∙ ap (λ k. done (record io { parse_pos = k })) (omega (arith, recv-le, h.fits, h.recv_at))

  pub tag_send-Holds :
      (n : ℕ)
      → 0 < n
      → n ≤ length unparsed
      → (io' : IoBuf) × (iobuf_tag_send n io ≡ done io')
        × Holds len io' (pending ++ take n unparsed) (drop n unparsed)
  tag_send-Holds n pos l = (
    record io { parse_pos = io.parse_pos + n },
    tag_send_passes n pos l,
    record {
      gone = h.gone;
      free = h.free;
      in_order = h.in_order ∙ ap (λ z. h.gone ++ z) (regroup n pending unparsed h.free);
      size = h.size;
      fits = h.fits;
      done_at = h.done_at;
      parse_at =
          omega
            (arith, h.parse_at, length-append pending (take n unparsed), length-take n unparsed);
      recv_at = omega (arith, h.recv_at, length-drop n unparsed);
    },
  )

  -- `n` bytes of the first queue are sent.
  pub sent-Holds :
      (n : ℕ)
      → n ≤ length pending
      → Holds len (record io { done_pos = (io.done_pos + n) % 2 ^ 32 }) (drop n pending) unparsed
  sent-Holds n l = record {
    gone = h.gone ++ take n pending;
    free = h.free;
    in_order = h.in_order ∙ regroup n h.gone pending (unparsed ++ h.free);
    size = h.size;
    fits = h.fits;
    done_at = omega (
      arith,
      h.done_at,
      h.parse_at,
      h.recv_at,
      recv-le,
      h.fits,
      length-append h.gone (take n pending),
      length-take n pending,
    );
    parse_at = omega (arith, h.parse_at, h.recv_at, recv-le, h.fits, length-drop n pending);
    recv_at = h.recv_at;
  }

  pub to_send : (n : ℕ) → n ≤ length pending → take n (drop io.done_pos io.buf) ≡ take n pending
  to_send n l =
      ap (take n) (ap (drop io.done_pos) h.in_order ∙ drop-append io.done_pos h.gone _ h.done_at)
      ∙ take-append_le n pending (unparsed ++ h.free) l

  pub to_parse : (n : ℕ) → n ≤ length unparsed → take n (drop io.parse_pos io.buf) ≡ take n unparsed
  to_parse n l =
      ap (take n) (
        ap (drop io.parse_pos) (h.in_order ∙ sym (append_assoc h.gone pending (unparsed ++ h.free)))
        ∙ drop-append io.parse_pos (h.gone ++ pending) _
            (omega (arith, h.done_at, h.parse_at, length-append h.gone pending)))
      ∙ take-append_le n unparsed h.free l

  tag_skip_passes :
      (n : ℕ)
      → pending ≡ []
      → 0 < n
      → n ≤ length unparsed
      → iobuf_tag_skip n io
        ≡ done (record io { parse_pos = io.parse_pos + n; done_pos = io.parse_pos + n })
  unfolding iobuf_tag_skip
  tag_skip_passes n e pos l =
      assert_passes (io.parse_pos == io.done_pos) _ (ground (arith, h.parse_at, ap length e))
      ∙ assert_passes (ltb 0 n && leb n (iobuf_amount_parse io)) _ (ground (arith, amount_parse))
      ∙ ap (λ k. done (record io { parse_pos = k; done_pos = k }))
          (omega (arith, recv-le, h.fits, h.recv_at))

  pub tag_skip-Holds :
      (n : ℕ)
      → pending ≡ []
      → 0 < n
      → n ≤ length unparsed
      → (io' : IoBuf) × (iobuf_tag_skip n io ≡ done io') × Holds len io' [] (drop n unparsed)
  tag_skip-Holds n e pos l = (
    record io { parse_pos = io.parse_pos + n; done_pos = io.parse_pos + n },
    tag_skip_passes n e pos l,
    record {
      gone = h.gone ++ take n unparsed;
      free = h.free;
      in_order =
          h.in_order
          ∙ ap (λ z. h.gone ++ (z ++ (unparsed ++ h.free))) e
          ∙ regroup n h.gone unparsed h.free;
      size = h.size;
      fits = h.fits;
      done_at = omega (
        arith,
        h.parse_at,
        h.done_at,
        ap length e,
        length-append h.gone (take n unparsed),
        length-take n unparsed,
      );
      parse_at = omega arith;
      recv_at = omega (arith, h.recv_at, length-drop n unparsed);
    },
  )

  abbrev held : ℕ
  held = length pending + length unparsed

  amount_held : sub32 io.recv_pos io.done_pos ≡ held
  amount_held = omega (arith, recv-le, h.fits, h.parse_at, h.recv_at)

  held-le : held ≤ len
  held-le = omega (arith, recv-le, h.parse_at, h.recv_at)

  reset-Holds :
      pending ≡ []
      → unparsed ≡ []
      → Holds len (record io { recv_pos = 0; parse_pos = 0; done_pos = 0 }) pending unparsed
  reset-Holds p u = record {
    gone = [];
    free = io.buf;
    in_order = sym (ap₂ (λ p u. p ++ (u ++ io.buf)) p u);
    size = h.size;
    fits = h.fits;
    done_at = refl;
    parse_at = omega (arith, ap length p);
    recv_at = omega (arith, ap length u);
  }

  moved : move_to_start io.done_pos held io.buf ≡ pending ++ (unparsed ++ drop held io.buf)
  moved =
      ap (λ z. take held z ++ drop held io.buf)
        (ap (drop io.done_pos) h.in_order ∙ drop-append io.done_pos h.gone _ h.done_at)
      ∙ ap (λ z. take held z ++ drop held io.buf) (sym (append_assoc pending unparsed h.free))
      ∙ ap (λ z. z ++ drop held io.buf)
          (take-append held (pending ++ unparsed) h.free (sym (length-append pending unparsed)))
      ∙ append_assoc pending unparsed (drop held io.buf)

  moved-Holds :
      Holds len
        (record io {
          buf = move_to_start io.done_pos held io.buf;
          parse_pos = sub32 io.parse_pos io.done_pos;
          recv_pos = held;
          done_pos = 0;
        })
        pending
        unparsed
  moved-Holds = record {
    gone = [];
    free = drop held io.buf;
    in_order = moved;
    size = omega (
      arith,
      ap length moved,
      length-append pending (unparsed ++ drop held io.buf),
      length-append unparsed (drop held io.buf),
      length-drop held io.buf,
      h.size,
      held-le,
    );
    fits = h.fits;
    done_at = refl;
    parse_at = omega (arith, recv-le, h.fits, h.parse_at, h.recv_at);
    recv_at = omega (arith, recv-le, h.fits, h.parse_at, h.recv_at);
  }

  -- iobuf_try_resync refines the identity on the two queues of a buffer: the bytes that are to be
  -- sent and those that are to be parsed are the same, in their order, whether the positions go
  -- back to 0, the bytes are moved to the start, or nothing is done.
  pub try_resync-Holds : (small : ℕ) → Holds len (iobuf_try_resync small io) pending unparsed
  unfolding iobuf_try_resync
  try_resync-Holds small =
      if_intro Kept (sub32 io.recv_pos io.done_pos == 0) _ _
        (λ z.
          if_intro Kept (ltb 0 io.recv_pos) _ _
            (λ r.
              reset-Holds (length_zero pending (ground (arith, amount_held)))
                (length_zero unparsed (ground (arith, amount_held))))
            (λ r. h))
        (λ z.
          if_intro Kept (leb (sub32 io.recv_pos io.done_pos) small && ltb 0 io.done_pos) _ _
            (λ m. subst (λ k. Kept (moved_by k)) (sym amount_held) moved-Holds) (λ m. h))
    where
      Kept : IoBuf → Type 0
      Kept i = Holds len i pending unparsed

      moved_by : ℕ → IoBuf
      moved_by k = record io {
        buf = move_to_start io.done_pos k io.buf;
        parse_pos = sub32 io.parse_pos io.done_pos;
        recv_pos = k;
        done_pos = 0;
      }
