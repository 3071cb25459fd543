-- ===== src/Codec/Decoder/Guarded.antt =====
-- What every reader keeps, whatever the input: the slice, a position inside it that never goes
-- back, and the end of its loops; with one rule for each way to build a reader.
use rusnmp.Prelude.{ℕ, ◌+◌, ◌^◌, ◌≤◌, ◌<◌, ◌≡◌, ◌≢◌, refl, ap, ◌∙◌, arith, Bool, true, false}
use rusnmp.Prelude.{length, if◌then◌else◌, subst}
use rusnmp.Error.{Outcome, SnmpError, ok, err, panicked, out_of_fuel}
use rusnmp.Run.{pure, fail, lift, eval, continue, ◌>>=◌}
use rusnmp.Codec.Decoder.{BerDecoder, Reader}

-- The index stays inside the slice, and a slice holds at most isize::MAX bytes.
pub record IsValid (d : BerDecoder) : Type 0 where
  pub small : length d.bytes < 2 ^ 63
  pub inside : d.pos ≤ length d.bytes

-- What a call from `d` leaves: on success the position is at least `n` further, and `Q` holds of
-- the value.
pub record Post {A : Type 0} (n : ℕ) (Q : A → Type 0) (d : BerDecoder) (r : Outcome A × BerDecoder)
    : Type 0 where
  pub same : r.1.bytes ≡ d.bytes
  pub inside : r.1.pos ≤ length d.bytes
  pub forward : d.pos ≤ r.1.pos
  pub progress : (a : A) → r.0 ≡ ok a → d.pos + n ≤ r.1.pos
  pub value : (a : A) → r.0 ≡ ok a → Q a
  pub ends : r.0 ≢ out_of_fuel

pub record Guarded {A : Type 0} (n : ℕ) (Q : A → Type 0) (p : Reader A) : Type 0 where
  pub at : (d : BerDecoder) → IsValid d → Post n Q d (p d)

-- Nothing is said of the value.
abbrev pub Any : {A : Type 0} → A → Type 0
Any a = Unit {0}

pub Post-IsValid :
    {A : Type 0} {n : ℕ} {Q : A → Type 0} {d : BerDecoder} {r : Outcome A × BerDecoder}
    → IsValid d
    → Post n Q d r
    → IsValid r.1
Post-IsValid v h = record {
  small = ground (arith, ap (λ t. length t) h.same);
  inside = ground (arith, ap (λ t. length t) h.same);
}

module _ {A : Type 0} where
  pub Guarded-pure : {Q : A → Type 0} {a : A} → Q a → Guarded 0 Q (pure a)
  Guarded-pure {Q} h = record {
    at = λ d v. record {
      same = refl;
      inside = v.inside;
      forward = omega arith;
      progress = λ a e. omega arith;
      value = λ a e. subst Q (cc) h;
      ends = λ e. cc;
    };
  }

  pub Guarded-fail : {n : ℕ} {Q : A → Type 0} (e : SnmpError) → Guarded n Q (fail e)
  Guarded-fail e = record {
    at = λ d v. record {
      same = refl;
      inside = v.inside;
      forward = omega arith;
      progress = λ a e. cc;
      value = λ a e. cc;
      ends = λ e. cc;
    };
  }

  pub Guarded-lift_value :
      {Q : A → Type 0} (r : Outcome A)
      → r ≢ out_of_fuel
      → ((a : A) → r ≡ ok a → Q a)
      → Guarded 0 Q (lift r)
  Guarded-lift_value r h k = record {
    at = λ d v. record {
      same = refl;
      inside = v.inside;
      forward = omega arith;
      progress = λ a e. omega arith;
      value = k;
      ends = h;
    };
  }

  pub Guarded-lift : (r : Outcome A) → r ≢ out_of_fuel → Guarded 0 Any (lift r)
  Guarded-lift r h = Guarded-lift_value r h (λ a e. tt)

  pub Guarded-if :
      {n : ℕ} {Q : A → Type 0} (b : Bool) {p q : Reader A}
      → Guarded n Q p
      → Guarded n Q q
      → Guarded n Q (if b then p else q)
  Guarded-if true h k = h
  Guarded-if false h k = k

pub Guarded-weaken :
    {A : Type 0} {n : ℕ} {Q : A → Type 0} {p : Reader A} → Guarded n Q p → Guarded 0 Q p
Guarded-weaken h = record {
  at = λ d v.
      let r = h.at d v in
      record {
        same = r.same;
        inside = r.inside;
        forward = r.forward;
        progress = λ a e. omega (arith, r.progress a e);
        value = r.value;
        ends = r.ends;
      };
}

pub Guarded-forget :
    {A : Type 0} {n : ℕ} {Q : A → Type 0} {p : Reader A} → Guarded n Q p → Guarded 0 Any p
Guarded-forget h = record {
  at = λ d v.
      let r = h.at d v in
      record {
        same = r.same;
        inside = r.inside;
        forward = r.forward;
        progress = λ a e. omega (arith, r.forward);
        value = λ a e. tt;
        ends = r.ends;
      };
}

module _ {A B : Type 0} {n : ℕ} {Q : A → Type 0} {R : B → Type 0} where
  Post-continue :
      (d : BerDecoder) (r : Outcome A) (d' : BerDecoder) (f : A → Reader B)
      → IsValid d
      → Post n Q d (r, d')
      → ((a : A) → Q a → Guarded 0 R (f a))
      → Post n R d (continue r f d')
  Post-continue d (ok a) d' f v h k =
      let next = (k a (h.value a refl)).at d' (Post-IsValid v h) in
      record {
        same = next.same ∙ h.same;
        inside = ground (arith, next.inside, h.inside, ap (λ t. length t) h.same);
        forward = omega (arith, next.forward, h.forward);
        progress = λ b e. omega (arith, next.forward, h.progress a refl);
        value = next.value;
        ends = next.ends;
      }
  Post-continue d (err x) d' f v h k = record {
    same = h.same;
    inside = h.inside;
    forward = h.forward;
    progress = λ a e. cc;
    value = λ a e. cc;
    ends = λ e. cc;
  }
  Post-continue d panicked d' f v h k = record {
    same = h.same;
    inside = h.inside;
    forward = h.forward;
    progress = λ a e. cc;
    value = λ a e. cc;
    ends = λ e. cc;
  }
  Post-continue d out_of_fuel d' f v h k = absurd (h.ends refl)

  pub Guarded-bind :
      (p : Reader A) (f : A → Reader B)
      → Guarded n Q p
      → ((a : A) → Q a → Guarded 0 R (f a))
      → Guarded n R (p >>= f)
  Guarded-bind p f h k = record { at = λ d v. Post-continue d (p d).0 (p d).1 f v (h.at d v) k }

pub Guarded-eval :
    {A : Type 0} {n : ℕ} {Q : A → Type 0} {p : Reader A} (d : BerDecoder)
    → Guarded n Q p
    → IsValid d
    → eval p d ≢ out_of_fuel
Guarded-eval d h v = (h.at d v).ends

pub Guarded-eval_value :
    {A : Type 0} {n : ℕ} {Q : A → Type 0} {p : Reader A} (d : BerDecoder)
    → Guarded n Q p
    → IsValid d
    → (a : A) → eval p d ≡ ok a
    → Q a
Guarded-eval_value d h v = (h.at d v).value
