-- ===== src/World/Keeps.antt =====
-- Relations between the world before an action and the world after it, whether it succeeds or
-- fails, with one rule for each way to build an action.
use youtube_webhook_ingestio.Base.{String, ◌≡◌, refl, Bool, true, false, if◌then◌else◌}
use youtube_webhook_ingestio.Errors.{Error}
use youtube_webhook_ingestio.World.{World, Fault, served, refused, lost}
use youtube_webhook_ingestio.World.Action.{
  Result, ok, err, Action, pure, fail, lift, attempt, context, remote, now, continue, answer,
  next_fault, later_faults, ◌>>=◌,
}

-- A reflexive and transitive relation that the faults and the clock do not affect.
pub record IsSteady (R : World → World → Type 0) : Type 0 where
  pub refl_at : (w : World) → R w w
  pub trans_at : (u v w : World) → R u v → R v w → R u w
  pub environment :
      (w v : World) → w.db ≡ v.db → w.blocked_set ≡ v.blocked_set → w.tasks ≡ v.tasks → R w v

-- Every run of `m` is in `R`.
pub record Keeps {A : Type 0} (R : World → World → Type 0) (m : Action A) : Type 0 where
  pub at : (w : World) → R w (m w).1

module _ {R : World → World → Type 0} (s : IsSteady R) where
  pub Keeps-pure : {A : Type 0} (a : A) → Keeps R (pure a)
  unfolding pure
  Keeps-pure a = record { at = λ w. s.refl_at w }

  pub Keeps-fail : {A : Type 0} (e : Error) → Keeps R (fail {A = A} e)
  unfolding fail
  Keeps-fail e = record { at = λ w. s.refl_at w }

  pub Keeps-lift : {A : Type 0} (r : Result A) → Keeps R (lift r)
  unfolding lift
  Keeps-lift r = record { at = λ w. s.refl_at w }

  pub Keeps-now : Keeps R now
  unfolding now
  Keeps-now = record { at = λ w. s.environment w _ refl refl refl }

  pub Keeps-attempt : {A : Type 0} (m : Action A) → Keeps R m → Keeps R (attempt m)
  unfolding attempt
  Keeps-attempt m k = record { at = λ w. k.at w }

  pub Keeps-context :
      {A : Type 0} (before : String) (m : Action A) → Keeps R m → Keeps R (context before m)
  unfolding context
  Keeps-context before m k = record { at = λ w. k.at w }

  Keeps-continue :
      {A B : Type 0} (r : Result A) (f : A → Action B) (v : World)
      → ((a : A) → Keeps R (f a))
      → R v (continue r f v).1
  Keeps-continue (ok a) f v kf = (kf a).at v
  Keeps-continue (err e) f v kf = s.refl_at v

  pub Keeps-bind :
      {A B : Type 0} (m : Action A) (f : A → Action B)
      → Keeps R m
      → ((a : A) → Keeps R (f a))
      → Keeps R (m >>= f)
  unfolding ◌>>=◌
  Keeps-bind m f km kf = record {
    at = λ w.
        s.trans_at w (m w).1 (continue (m w).0 f (m w).1).1 (km.at w)
          (Keeps-continue (m w).0 f (m w).1 kf);
  }

  pub Keeps-if :
      {A : Type 0} (b : Bool) (m n : Action A)
      → (b ≡ true → Keeps R m)
      → (b ≡ false → Keeps R n)
      → Keeps R (if b then m else n)
  Keeps-if true m n km kn = km refl
  Keeps-if false m n km kn = kn refl

  Keeps-answer : {A : Type 0} (f : Fault) (call : Action A) → Keeps R call → Keeps R (answer f call)
  unfolding answer
  Keeps-answer served call k = k
  Keeps-answer (refused t) call k = record { at = λ w. s.refl_at w }
  Keeps-answer (lost t) call k = record { at = λ w. k.at w }

  -- A call over the network is in `R` if the call itself is.
  pub Keeps-remote : {A : Type 0} (call : Action A) → Keeps R call → Keeps R (remote call)
  unfolding remote
  Keeps-remote call k = record {
    at = λ w.
        let v : World = record w { faults = later_faults w.faults } in
        s.trans_at w v _ (s.environment w v refl refl refl)
          ((Keeps-answer (next_fault w.faults) call k).at v);
  }

-- Two steps one after the other, where the second may be left out.
pub Keeps-then :
    {R S : World → World → Type 0} {A B : Type 0} (m : Action A) (f : A → Action B)
    → Keeps R m
    → ((a : A) → Keeps S (f a))
    → ((v : World) → S v v)
    → Keeps (λ w w'. (v : World) × R w v × S v w') (m >>= f)
unfolding ◌>>=◌
Keeps-then {S = S} {A = A} m f km kf stay = record {
  at = λ w. ((m w).1, km.at w, go (m w).0 (m w).1);
}
  where
    go : (r : Result A) (v : World) → S v (continue r f v).1
    go (ok a) v = (kf a).at v
    go (err e) v = stay v

pub ruleset keeps_rules = (
  Keeps-pure, Keeps-fail, Keeps-lift, Keeps-now, Keeps-attempt, Keeps-context, Keeps-bind, Keeps-if,
  Keeps-remote,
)
