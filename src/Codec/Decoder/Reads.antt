-- ===== src/Codec/Decoder/Reads.antt =====
-- A reader that takes given bytes off the front of what is left and returns a given value, with
-- one rule for each way to build a reader.
use rusnmp.Prelude.{Bool, true, false, if◌then◌else◌}
use rusnmp.Prelude.{ℕ, ◌+◌, ◌^◌, ◌≤◌, ◌<◌, ◌≡◌, ◌∙◌, refl, sym, ap, arith, List, [], ◌++◌}
use rusnmp.Prelude.{
  append-nil, length, drop, length-append, length-drop, drop-append, drop-drop, append_assoc,
}
use rusnmp.Error.{Outcome, ok}
use rusnmp.Run.{pure, lift, eval, ◌>>=◌}
use rusnmp.Codec.Decoder.{BerDecoder, Reader, new}

-- `bs` is what is left of a slice. A slice holds at most isize::MAX bytes.
pub record Ahead (d : BerDecoder) (bs : List ℕ) : Type 0 where
  pub small : length d.bytes < 2 ^ 63
  pub inside : d.pos ≤ length d.bytes
  pub ahead : drop d.pos d.bytes ≡ bs

abbrev pub advance : BerDecoder → ℕ → BerDecoder
advance d n = record d { pos = d.pos + n }

pub length-Ahead : {d : BerDecoder} {bs : List ℕ} → Ahead d bs → d.pos + length bs ≡ length d.bytes
length-Ahead {d} {bs} h = omega (arith, h.inside, length-drop d.pos d.bytes, ap length h.ahead)

pub Ahead-advance :
    {d : BerDecoder} (bs : List ℕ) {rest : List ℕ}
    → Ahead d (bs ++ rest)
    → Ahead (advance d (length bs)) rest
Ahead-advance {d} bs {rest} h = record {
  small = h.small;
  inside = omega (arith, length-Ahead h, length-append bs rest);
  ahead =
      sym (drop-drop d.pos (length bs) (d.pos + length bs) d.bytes refl)
      ∙ ap (drop (length bs)) h.ahead
      ∙ drop-append bs rest;
}

pub record Reads {A : Type 0} (p : Reader A) (a : A) (bs : List ℕ) : Type 0 where
  pub run :
      (d : BerDecoder) (rest : List ℕ) → Ahead d (bs ++ rest) → p d ≡ (ok a, advance d (length bs))

module _ {A : Type 0} where
  pub Reads-pure : (a : A) → Reads (pure a) a []
  Reads-pure a = record { run = λ d rest h. ground arith }

  pub Reads-lift : {r : Outcome A} {a : A} → r ≡ ok a → Reads (lift r) a []
  Reads-lift e = record { run = λ d rest h. ground arith }

pub Reads-if :
    {A : Type 0} {p : Reader A} {a : A} (b : Bool) {bs cs : List ℕ}
    → (b ≡ true → Reads p a bs)
    → (b ≡ false → Reads p a cs)
    → Reads p a (if b then bs else cs)
Reads-if true h k = h refl
Reads-if false h k = k refl

module _ {A B : Type 0} {p : Reader A} {a : A} (f : A → Reader B) {b : B} where
  pub Reads-bind : (bs cs : List ℕ) → Reads p a bs → Reads (f a) b cs → Reads (p >>= f) b (bs ++ cs)
  Reads-bind bs cs hp hf = record {
    run = λ d rest h.
        let h' : Ahead d (bs ++ (cs ++ rest)) = rw append_assoc at h in
        rw (hp.run d (cs ++ rest) h')
          (rw (hf.run _ rest (Ahead-advance bs h')) (ground (arith, length-append bs cs)));
  }

  -- The last reader, with only a computation after it.
  pub Reads-bind_last : (bs : List ℕ) → Reads p a bs → Reads (f a) b [] → Reads (p >>= f) b bs
  Reads-bind_last bs hp hf = rw append-nil at (Reads-bind bs [] hp hf)

-- A reader that takes all of a buffer.
pub Reads-eval :
    {A : Type 0} {p : Reader A} {a : A} (bs : List ℕ)
    → length bs < 2 ^ 63
    → Reads p a bs
    → eval p (new bs) ≡ ok a
Reads-eval bs h r = ap (λ t. t.0) (r.run (new bs) [] whole)
  where
    whole : Ahead (new bs) (bs ++ [])
    whole = record { small = h; inside = omega arith; ahead = sym (append-nil bs) }

-- A reader at the front of a buffer stops right behind what it reads.
pub Reads-run :
    {A : Type 0} {p : Reader A} {a : A} (bs rest : List ℕ)
    → Reads p a bs
    → length (bs ++ rest) < 2 ^ 63
    → p (new (bs ++ rest)) ≡ (ok a, record { bytes = bs ++ rest; pos = length bs })
Reads-run bs rest r small = r.run (new (bs ++ rest)) rest whole ∙ ground arith
  where
    whole : Ahead (new (bs ++ rest)) (bs ++ rest)
    whole = record { small = small; inside = omega arith; ahead = refl }
