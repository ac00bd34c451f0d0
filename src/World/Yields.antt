-- ===== src/World/Yields.antt =====
-- What holds of each value that an action returns without an error.
use youtube_webhook_ingestio.Base.{◌≡◌, refl, subst, arith}
use youtube_webhook_ingestio.World.{World}
use youtube_webhook_ingestio.World.Action.{Result, ok, err, Action, pure, continue, ◌>>=◌}
use youtube_webhook_ingestio.World.Keeps.{IsSteady, Keeps}

pub record Yields {A : Type 0} (P : A → Type 0) (m : Action A) : Type 0 where
  pub value : (w : World) (a : A) → (m w).0 ≡ ok a → P a

pub ok-injective : {A : Type 0} (a b : A) → ◌≡◌ {A = Result A} (ok a) (ok b) → a ≡ b
ok-injective a b h = ground arith

pub Yields-pure : {A : Type 0} {P : A → Type 0} (a : A) → P a → Yields P (pure a)
unfolding pure
Yields-pure {P = P} a p = record { value = λ w b h. subst P (ok-injective a b h) p }

module _ {A B : Type 0} where
  continue-Yields :
      {P : B → Type 0} (r : Result A) (f : A → Action B) (v : World) (b : B)
      → ((a : A) → Yields P (f a))
      → (continue r f v).0 ≡ ok b
      → P b
  continue-Yields (ok a) f v b k h = (k a).value v b h
  continue-Yields (err e) f v b k h = absurd (ground arith)

  pub Yields-bind :
      {P : B → Type 0} (m : Action A) (f : A → Action B)
      → ((a : A) → Yields P (f a))
      → Yields P (m >>= f)
  unfolding ◌>>=◌
  Yields-bind m f k = record { value = λ w b h. continue-Yields (m w).0 f (m w).1 b k h }

  continue-Keeps :
      {R : World → World → Type 0} (s : IsSteady R) {P : A → Type 0} (r : Result A)
      (f : A → Action B) (v : World)
      → ((a : A) → r ≡ ok a → P a)
      → ((a : A) → P a → Keeps R (f a))
      → R v (continue r f v).1
  continue-Keeps s (ok a) f v p k = (k a (p a refl)).at v
  continue-Keeps s (err e) f v p k = s.refl_at v

  -- A chain is in `R` if its first step is, and its rest for each value that the first step can return.
  pub Keeps-bind_of :
      {R : World → World → Type 0} (s : IsSteady R) {P : A → Type 0} (m : Action A)
      (f : A → Action B)
      → Keeps R m
      → Yields P m
      → ((a : A) → P a → Keeps R (f a))
      → Keeps R (m >>= f)
  unfolding ◌>>=◌
  Keeps-bind_of s m f km y kf = record {
    at = λ w.
        s.trans_at w (m w).1 (continue (m w).0 f (m w).1).1 (km.at w)
          (continue-Keeps s (m w).0 f (m w).1 (y.value w) kf);
  }
