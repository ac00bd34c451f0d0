-- ===== src/World/Fails.antt =====
-- What holds of each error that an action returns.
use Prim.Native.String.{◌++◌ as ◌<>◌}
use youtube_webhook_ingestio.Base.{String, ◌≡◌, refl, sym, subst, arith}
use youtube_webhook_ingestio.Errors.{Error, wrapped}
use youtube_webhook_ingestio.World.{World}
use youtube_webhook_ingestio.World.Action.{
  Result, ok, err, Action, pure, attempt, context, context-err, now, continue, ◌>>=◌,
}

pub record Fails (P : Error → Type 0) {A : Type 0} (m : Action A) : Type 0 where
  pub reason : (w : World) (e : Error) → (m w).0 ≡ err e → P e

pub err-injective : {A : Type 0} (d e : Error) → ◌≡◌ {A = Result A} (err d) (err e) → d ≡ e
err-injective d e h = ground arith

module _ (P : Error → Type 0) {A : Type 0} where
  pub Fails-pure : (a : A) → Fails P (pure a)
  unfolding pure
  Fails-pure a = record { reason = λ w e h. absurd (ground arith) }

  pub Fails-attempt : (m : Action A) → Fails P (attempt m)
  unfolding attempt
  Fails-attempt m = record { reason = λ w e h. absurd (ground arith) }

  pub Fails-context :
      (before : String) (m : Action A)
      → ((cause : Error) → P (wrapped (before <> ": ") cause ""))
      → Fails P (context before m)
  Fails-context before m p = record {
    reason = λ w e h. let (cause, q) = context-err before m w e h in subst P (sym q) (p cause);
  }

pub Fails-now : (P : Error → Type 0) → Fails P now
unfolding now
Fails-now P = record { reason = λ w e h. absurd (ground arith) }

module _ (P : Error → Type 0) {A B : Type 0} where
  continue-Fails :
      (r : Result A) (f : A → Action B) (v : World) (e : Error)
      → ((d : Error) → r ≡ err d → P d)
      → ((a : A) → Fails P (f a))
      → (continue r f v).0 ≡ err e
      → P e
  continue-Fails (ok a) f v e p k h = (k a).reason v e h
  continue-Fails (err d) f v e p k h = subst P (err-injective {A = B} d e h) (p d refl)

  pub Fails-bind :
      (m : Action A) (f : A → Action B) → Fails P m → ((a : A) → Fails P (f a)) → Fails P (m >>= f)
  unfolding ◌>>=◌
  Fails-bind m f fm k = record {
    reason = λ w e h. continue-Fails (m w).0 f (m w).1 e (λ d q. fm.reason w d q) k h;
  }
