-- ===== src/Network/TcpReceive/Place.antt =====
-- Where `place` puts the bytes of a segment.
use g_os.Common.{
  Bool, Bool-cases, ap, arith, dec_lt, false, if◌then◌else◌, inl, inr, ltb, max, not, refl, subst,
  sym, true, true-ne-false, ℕ, ◌%◌, ◌+◌, ◌-◌, ◌<◌, ◌==◌, ◌^◌, ◌||◌, ◌∙◌, ◌≡◌, ◌≤◌, ◌⊎◌,
}
use g_os.Network.TcpSocket.{RcvQueue}
use g_os.Network.TcpReceive.{copy_in, mark, place}
use g_os.Network.TcpReceive.Ring.{
  copy_in-inside, copy_in-outside, mark-keeps, mark-only, marks-keeps,
}

-- The segment is not empty, and lies in the window and ends before its last byte; the window ends
-- before the sequence numbers do.
pub record Fits (q : RcvQueue) (seq len : ℕ) : Type 0 where
  pub size : q.buf_size ≡ 32768
  pub first : q.wnd_min ≤ seq
  pub last : seq + len < q.wnd_min + 32768
  pub short : q.wnd_min + 32768 ≤ 4294967295
  pub some_bytes : 0 < len

-- The number is in the window.
abbrev pub InWindow : RcvQueue → ℕ → Type 0
InWindow q n = (q.wnd_min ≤ n) × (n < q.wnd_min + 32768)

abbrev pub IsBeyond : (seq len n : ℕ) → Type 0
IsBeyond seq len n = (n < seq) ⊎ (seq + len ≤ n)

-- The bytes of the segment are in the slots of their numbers, and the other slots of the window as
-- they were.
pub record Written (q : RcvQueue) (buf : ℕ → ℕ) (seq len : ℕ) (bytes : ℕ → ℕ) : Type 0 where
  pub inside : (n : ℕ) → seq ≤ n → n < seq + len → buf (n % 32768) ≡ bytes (n - seq)
  pub outside : (n : ℕ) → InWindow q n → IsBeyond seq len n → buf (n % 32768) ≡ q.buf (n % 32768)

-- A slot of the window that is marked has been so before, or is the segment's.
abbrev pub Marks : RcvQueue → (ℕ → Bool) → (seq len : ℕ) → Type 0
Marks q state seq len =
    (n : ℕ)
    → InWindow q n
    → state (n % 32768) ≡ true
    → (q.buf_state (n % 32768) ≡ true) ⊎ ((seq ≤ n) × (n < seq + len))

abbrev pub is_hole : RcvQueue → ℕ → Bool
is_hole q seq = not (q.nxt_rcv == seq) || q.is_wnd_hole

pub record Placed (q q' : RcvQueue) (seq len : ℕ) (bytes : ℕ → ℕ) : Type 0 where
  pub written : Written q q'.buf seq len bytes
  pub marks : Marks q q'.buf_state seq len
  pub size : q'.buf_size ≡ q.buf_size
  pub start : q'.wnd_min ≡ q.wnd_min
  pub next : q'.nxt_rcv ≡ q.nxt_rcv
  pub hole :
      is_hole q seq ≡ true
      → (q'.is_wnd_hole ≡ true) × (q'.max_seq_num ≡ max q.max_seq_num (seq + len))
  pub no_hole :
      is_hole q seq ≡ false
      → (q'.buf_state ≡ q.buf_state)
        × (q'.is_wnd_hole ≡ q.is_wnd_hole)
        × (q'.max_seq_num ≡ q.max_seq_num)

module _ (low_wnd seq len : ℕ) (first : low_wnd ≤ seq) (last : seq + len < low_wnd + 32768)
    (bytes buf : ℕ → ℕ) where
  abbrev low : ℕ
  low = seq % 32768

  straight-inside :
      (n : ℕ)
      → low + len ≤ 32768
      → seq ≤ n
      → n < seq + len
      → copy_in len low bytes 0 buf (n % 32768) ≡ bytes (n - seq)
  straight-inside n room a b =
      copy_in-inside len low bytes 0 buf (n - seq) (n % 32768) (omega arith) (omega arith)
      ∙ ap bytes (omega arith)

  slot-outside :
      (n : ℕ)
      → low_wnd ≤ n
      → n < low_wnd + 32768
      → IsBeyond seq len n
      → low + len ≤ 32768
      → IsBeyond low len (n % 32768)
  slot-outside n a b out room = omega (arith, out)

  wrapped_buf : ℕ → ℕ
  wrapped_buf =
      copy_in (len - (32768 - low)) 0 bytes (32768 - low) (copy_in (32768 - low) low bytes 0 buf)

  wrapped-inside :
      (n : ℕ)
      → 32768 ≤ low + len
      → seq ≤ n
      → n < seq + len
      → wrapped_buf (n % 32768) ≡ bytes (n - seq)
  unfolding wrapped_buf
  wrapped-inside n room a b = elim (dec_lt (n - seq) (32768 - low)) [
    | yes h ↦
        copy_in-outside (len - (32768 - low)) 0 bytes (32768 - low) _ (n % 32768)
          (inr (omega arith))
        ∙ copy_in-inside (32768 - low) low bytes 0 buf (n - seq) (n % 32768) h (omega arith)
        ∙ ap bytes (omega arith)
    | no h ↦
        copy_in-inside (len - (32768 - low)) 0 bytes (32768 - low) _ (n - seq - (32768 - low))
          (n % 32768) (omega arith) (omega arith)
        ∙ ap bytes (omega arith)
  ]

  wrapped-outside :
      (n : ℕ)
      → 32768 ≤ low + len
      → low_wnd ≤ n
      → n < low_wnd + 32768
      → IsBeyond seq len n
      → wrapped_buf (n % 32768) ≡ buf (n % 32768)
  unfolding wrapped_buf
  wrapped-outside n room a b out =
      copy_in-outside (len - (32768 - low)) 0 bytes (32768 - low) _ (n % 32768)
        (inr (omega (arith, out)))
      ∙ copy_in-outside (32768 - low) low bytes 0 buf (n % 32768) (inl (omega (arith, out)))

  straight-Written :
      (q : RcvQueue)
      → q.wnd_min ≡ low_wnd
      → q.buf ≡ buf
      → low + len ≤ 32768
      → Written q (copy_in len low bytes 0 buf) seq len bytes
  straight-Written q e e' room = record {
    inside = λ n a b. straight-inside n room a b;
    outside = λ n within out.
        copy_in-outside len low bytes 0 buf (n % 32768)
          (slot-outside n (omega arith) (omega arith) out room)
        ∙ ap (λ f. f (n % 32768)) (sym e');
  }

  wrapped-Written :
      (q : RcvQueue)
      → q.wnd_min ≡ low_wnd
      → q.buf ≡ buf
      → 32768 ≤ low + len
      → Written q wrapped_buf seq len bytes
  wrapped-Written q e e' room = record {
    inside = λ n a b. wrapped-inside n room a b;
    outside = λ n within out.
        wrapped-outside n room (omega arith) (omega arith) out ∙ ap (λ f. f (n % 32768)) (sym e');
  }

-- Without a hole only the bytes change, and with one the slots of the segment are marked besides.
Placed-buf :
    (q : RcvQueue) (buf : ℕ → ℕ) (seq len : ℕ) (bytes : ℕ → ℕ)
    → is_hole q seq ≡ false
    → Written q buf seq len bytes
    → Placed q (record q { buf = buf }) seq len bytes
Placed-buf q buf seq len bytes shut w = record {
  written = w;
  marks = λ n within e. inl e;
  size = refl;
  start = refl;
  next = refl;
  hole = λ e. absurd (true-ne-false (sym e ∙ shut));
  no_hole = λ e. (refl, refl, refl);
}

abbrev opened : RcvQueue → (seq len : ℕ) (buf : ℕ → ℕ) → RcvQueue
opened q seq len buf = record q {
  buf = buf;
  is_wnd_hole = true;
  max_seq_num = if ltb q.max_seq_num (seq + len) then (seq + len) % 2 ^ 32 else q.max_seq_num;
}

Placed-opened :
    (q : RcvQueue) (buf : ℕ → ℕ) (seq len : ℕ) (bytes : ℕ → ℕ) (state : ℕ → Bool) (wnd : ℕ)
    → seq + len < 2 ^ 32
    → is_hole q seq ≡ true
    → Written q buf seq len bytes
    → Marks q state seq len
    → Placed q (record (opened q seq len buf) { buf_state = state; wnd_size = wnd }) seq len bytes
Placed-opened q buf seq len bytes state wnd small holed w m = record {
  written = w;
  marks = m;
  size = refl;
  start = refl;
  next = refl;
  hole = λ e. (refl, ground arith);
  no_hole = λ e. absurd (true-ne-false (sym holed ∙ e));
}

-- Slots marked straight on, and in two parts.
straight-Marks :
    (q q' : RcvQueue) (seq len : ℕ)
    → Fits q seq len
    → seq % 32768 + len ≤ 32768
    → q'.buf_state ≡ q.buf_state
    → Marks q (mark len (seq % 32768) q').buf_state seq len
straight-Marks q q' seq len fits room same n within e =
    elim (mark-only len (seq % 32768) q' (n % 32768) e) [
      | inl before ↦ inl (sym (ap (λ f. f (n % 32768)) same) ∙ before)
      | inr r ↦ inr (omega (arith, fits.first, fits.last), omega (arith, fits.first, fits.last))
    ]

wrapped-Marks :
    (q q' : RcvQueue) (seq len : ℕ)
    → Fits q seq len
    → 32768 ≤ seq % 32768 + len
    → q'.buf_state ≡ q.buf_state
    → Marks q
        (mark
          (len - (32768 - seq % 32768))
          0
          (mark (32768 - seq % 32768) (seq % 32768) q')).buf_state
        seq
        len
wrapped-Marks q q' seq len fits room same n within e =
    let low = seq % 32768 in
    elim (mark-only (len - (32768 - low)) 0 _ (n % 32768) e) [
      | inl before ↦ elim (mark-only (32768 - low) low q' (n % 32768) before) [
        | inl before' ↦ inl (sym (ap (λ f. f (n % 32768)) same) ∙ before')
        | inr r ↦ inr (omega (arith, fits.first, fits.last), omega (arith, fits.first, fits.last))
      ]
      | inr r ↦ inr (omega (arith, fits.first, fits.last), omega (arith, fits.first, fits.last))
    ]

-- The four ways through `place`.
module _ (q : RcvQueue) (seq len : ℕ) (bytes : ℕ → ℕ) (fits : Fits q seq len) where
  abbrev start_slot : ℕ
  start_slot = seq % 32768

  abbrev end_slot : ℕ
  end_slot = (seq + len) % 2 ^ 32 % 32768

  abbrev straight : ℕ → ℕ
  straight = copy_in len start_slot bytes 0 q.buf

  abbrev wrapped : ℕ → ℕ
  wrapped = wrapped_buf q.wnd_min seq len fits.first fits.last bytes q.buf

  room_ahead : ltb start_slot end_slot ≡ true → start_slot + len ≤ 32768
  room_ahead ahead =
      let e : start_slot < end_slot = ground arith in omega (arith, fits.last, fits.short)

  room_wraps : ltb start_slot end_slot ≡ false → 32768 ≤ start_slot + len
  room_wraps wraps =
      let e : end_slot ≤ start_slot = ground arith in
      omega (arith, fits.last, fits.short, fits.some_bytes)

  len_1 : ltb start_slot end_slot ≡ true → end_slot - start_slot ≡ len
  len_1 ahead =
      let e = room_ahead ahead in
      let e' : start_slot < end_slot = ground arith in omega (arith, fits.last, fits.short)

  len_2 :
      ltb start_slot end_slot ≡ false
      → (len + 2 ^ 32 - (32768 - start_slot)) % 2 ^ 32 ≡ len - (32768 - start_slot)
  len_2 wraps = let e = room_wraps wraps in omega (arith, fits.last, fits.short)

  place-straight :
      ltb start_slot end_slot ≡ true
      → is_hole q seq ≡ false
      → place q seq seq len bytes ≡ record q { buf = straight }
  unfolding place
  place-straight ahead shut = rw (fits.size, ahead, shut) refl

  place-wrapped :
      ltb start_slot end_slot ≡ false
      → is_hole q seq ≡ false
      → place q seq seq len bytes ≡ record q { buf = wrapped }
  unfolding place wrapped_buf
  place-wrapped wraps shut = rw (fits.size, wraps, shut, len_2 wraps) refl

  place-straight_hole :
      ltb start_slot end_slot ≡ true
      → is_hole q seq ≡ true
      → place q seq seq len bytes ≡ mark len start_slot (opened q seq len straight)
  unfolding place
  place-straight_hole ahead holed = rw (fits.size, ahead, holed, len_1 ahead) refl

  place-wrapped_hole :
      ltb start_slot end_slot ≡ false
      → is_hole q seq ≡ true
      → place q seq seq len bytes
        ≡ mark
            (len - (32768 - start_slot))
            0
            (mark (32768 - start_slot) start_slot (opened q seq len wrapped))
  unfolding place wrapped_buf
  place-wrapped_hole wraps holed =
      let small : (seq + len) % 2 ^ 32 ≡ seq + len = omega (arith, fits.last, fits.short) in
      let waves : ltb start_slot ((seq + len) % 32768) ≡ false =
        ap (λ n. ltb start_slot (n % 32768)) (sym small) ∙ wraps in
      rw (fits.size, holed, len_2 wraps, small, waves) refl

  pub place-Placed : Placed q (place q seq seq len bytes) seq len bytes
  place-Placed =
      let small : seq + len < 2 ^ 32 = omega (arith, fits.last, fits.short) in
      elim (Bool-cases (ltb start_slot end_slot)) [
        | inl ahead ↦
            let w =
              straight-Written q.wnd_min seq len fits.first fits.last bytes q.buf q refl refl
                (room_ahead ahead) in
            elim (Bool-cases (is_hole q seq)) [
              | inl holed ↦
                  subst (λ x. Placed q x seq len bytes)
                    (sym (place-straight_hole ahead holed ∙ mark-keeps len start_slot _))
                    (Placed-opened q straight seq len bytes _ _ small holed w (
                      straight-Marks q (opened q seq len straight) seq len fits (room_ahead ahead)
                        refl))
              | inr shut ↦
                  rw (place-straight ahead shut) (Placed-buf q straight seq len bytes shut w)
            ]
        | inr wraps ↦
            let w =
              wrapped-Written q.wnd_min seq len fits.first fits.last bytes q.buf q refl refl
                (room_wraps wraps) in
            elim (Bool-cases (is_hole q seq)) [
              | inl holed ↦
                  subst (λ x. Placed q x seq len bytes)
                    (sym (place-wrapped_hole wraps holed ∙ marks-keeps _ 0 _ start_slot _))
                    (Placed-opened q wrapped seq len bytes _ _ small holed w (
                      wrapped-Marks q (opened q seq len wrapped) seq len fits (room_wraps wraps)
                        refl))
              | inr shut ↦ rw (place-wrapped wraps shut) (Placed-buf q wrapped seq len bytes shut w)
            ]
      ]
