-- ===== src/Codec/Decoder/Gives.antt =====
-- The outcome of a reader, an error or a panic included, on given bytes: the rules for the last steps
-- of a block whose first steps are known by `Reads`.
use rusnmp.Prelude.{ℕ, ◌^◌, ◌<◌, ◌≡◌, refl, sym, ap, arith, List, [], ◌++◌}
use rusnmp.Prelude.{append-nil, length, append_assoc, Bool, false, if◌then◌else◌}
use rusnmp.Error.{SnmpError, Outcome, ok, err}
use rusnmp.Run.{continue, fail, lift, eval, ◌>>=◌}
use rusnmp.Codec.Decoder.{BerDecoder, Reader, new}
use rusnmp.Codec.Decoder.Reads.{Ahead, Ahead-advance, Reads}

pub record Gives {A : Type 0} (p : Reader A) (r : Outcome A) (bs : List ℕ) : Type 0 where
  pub run : (d : BerDecoder) (rest : List ℕ) → Ahead d (bs ++ rest) → eval p d ≡ r

pub Gives-Reads :
    {A : Type 0} {p : Reader A} {a : A} {bs : List ℕ} → Reads p a bs → Gives p (ok a) bs
Gives-Reads r = record { run = λ d rest h. ap (λ t. t.0) (r.run d rest h) }

pub Gives-lift : {A : Type 0} {r r' : Outcome A} (bs : List ℕ) → r ≡ r' → Gives (lift r) r' bs
Gives-lift bs e = record { run = λ d rest h. e }

pub Gives-fail : {A : Type 0} (e : SnmpError) (bs : List ℕ) → Gives {A = A} (fail e) (err e) bs
Gives-fail e bs = record { run = λ d rest h. refl }

pub Gives-else :
    {A : Type 0} (p : Reader A) {q : Reader A} {r : Outcome A} (b : Bool) {bs : List ℕ}
    → b ≡ false
    → Gives q r bs
    → Gives (if b then p else q) r bs
Gives-else p b e g = rw e g

module _ {A B : Type 0} {p : Reader A} (f : A → Reader B) where
  pub Gives-bind :
      {a : A} {r : Outcome B} (bs cs : List ℕ)
      → Reads p a bs
      → Gives (f a) r cs
      → Gives (p >>= f) r (bs ++ cs)
  Gives-bind bs cs hp hf = record {
    run = λ d rest h.
        let h' : Ahead d (bs ++ (cs ++ rest)) = rw append_assoc at h in
        rw (hp.run d (cs ++ rest) h', eval) (hf.run _ rest (Ahead-advance bs h'));
  }

  pub Gives-bind_last :
      {a : A} {r : Outcome B} (bs : List ℕ) → Reads p a bs → Gives (f a) r [] → Gives (p >>= f) r bs
  Gives-bind_last bs hp hf = rw append-nil at (Gives-bind bs [] hp hf)

  -- A first step that fails, whatever follows.
  pub Gives-bind_fail :
      {e : SnmpError} (bs cs : List ℕ) → Gives p (err e) bs → Gives (p >>= f) (err e) (bs ++ cs)
  Gives-bind_fail {e} bs cs hp = record {
    run = λ d rest h.
        let failed : (p d).0 ≡ err e = hp.run d (cs ++ rest) (rw append_assoc at h) in
        ap (λ r. (continue r f (p d).1).0) failed;
  }

pub Gives-eval :
    {A : Type 0} {p : Reader A} {r : Outcome A} (bs : List ℕ)
    → length bs < 2 ^ 63
    → Gives p r bs
    → eval p (new bs) ≡ r
Gives-eval bs h g = g.run (new bs) [] whole
  where
    whole : Ahead (new bs) (bs ++ [])
    whole = record { small = h; inside = omega arith; ahead = sym (append-nil bs) }
