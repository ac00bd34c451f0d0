-- ===== src/World/Action.antt =====
-- Go code that reads and writes the world and returns an error, as an action. What was written
-- before an error stays written, so the world comes back beside the error too.
use Prim.Native.String.{◌++◌ as ◌<>◌}
use youtube_webhook_ingestio.Base.{ℕ, ◌+◌, String, ◌≡◌, refl, arith, List, [], ◌∷◌}
use youtube_webhook_ingestio.Errors.{Error, plain, wrapped}
use youtube_webhook_ingestio.Models.{Time}
use youtube_webhook_ingestio.World.{World, Fault, served, refused, lost}

pub data Result {ℓ} (A : Type ℓ) : Type ℓ where
  ok : A → Result A
  err : Error → Result A

abbrev pub Action {ℓ} : Type ℓ → Type ℓ
Action A = World → Result A × World

unfoldable pub next_fault : List Fault → Fault
next_fault [] = served
next_fault (f ∷ fs) = f

unfoldable pub later_faults : List Fault → List Fault
later_faults [] = []
later_faults (f ∷ fs) = fs

tick : List ℕ → Time → Time
tick [] clock = clock
tick (d ∷ ds) clock = clock + d

rest : List ℕ → List ℕ
rest [] = []
rest (d ∷ ds) = ds

module _ {ℓ} {A : Type ℓ} where
  unfoldable pub pure : A → Action A
  pure a w = (ok a, w)

  unfoldable pub fail : Error → Action A
  fail e w = (err e, w)

  unfoldable pub lift : Result A → Action A
  lift r w = (r, w)

  -- The error as a value, for callers that look at it or drop it.
  unfoldable pub attempt : Action A → Action (Result A)
  attempt m w = let (r, w') = m w in (ok r, w')

  wrap_result : String → Result A → Result A
  wrap_result before (ok a) = ok a
  wrap_result before (err e) = err (wrapped before e "")

  -- `if err != nil { return fmt.Errorf("<before>: %w", err) }`
  unfoldable pub context : String → Action A → Action A
  unfolding wrap_result
  context before m w = let (r, w') = m w in (wrap_result (before <> ": ") r, w')

  wrap_result-err :
      (before : String) (r : Result A) (e : Error)
      → wrap_result before r ≡ err e
      → (cause : Error) × (e ≡ wrapped before cause "")
  unfolding wrap_result
  wrap_result-err before (ok a) e h = absurd (ground arith)
  wrap_result-err before (err d) e h = (d, ground arith)

  -- An error of `context` has the context in front of another one.
  pub context-err :
      (before : String) (m : Action A) (w : World) (e : Error)
      → (context before m w).0 ≡ err e
      → (cause : Error) × (e ≡ wrapped (before <> ": ") cause "")
  unfolding context
  context-err before m w e h = wrap_result-err (before <> ": ") (m w).0 e h

  unfoldable pub answer : Fault → (World → Result A × World) → Action A
  answer served call w = call w
  answer (refused t) call w = (err (plain t), w)
  answer (lost t) call w = (err (plain t), (call w).1)

  -- One call to PostgreSQL, Redis or asynq, under the fault that the environment has for it.
  unfoldable pub remote : (World → Result A × World) → Action A
  unfolding answer next_fault later_faults
  remote call w = answer (next_fault w.faults) call (record w { faults = later_faults w.faults })

-- time.Now()
unfoldable pub now : Action Time
unfolding tick rest
now w = let t = tick w.delays w.clock in (ok t, record w { clock = t; delays = rest w.delays })

module _ {ℓ κ} {A : Type ℓ} {B : Type κ} where
  abbrev pub continue : Result A → (A → World → Result B × World) → World → Result B × World
  continue (ok a) f w = f a w
  continue (err e) f w = (err e, w)

  infixl 10 ◌>>=◌ ◌>>◌
  -- opening this opens `pure`, `fail` and `lift` too
  unfoldable pub ◌>>=◌ : Action A → (A → Action B) → Action B
  unfolding pure fail lift
  ◌>>=◌ m f w = let (r, w') = m w in continue r f w'

  abbrev pub ◌>>◌ : Action A → Action B → Action B
  m >> n = m >>= λ _. n

  continue-eq-ok :
      (r : Result A) (f : A → Action B) (v : World) {b : B} {w' : World}
      → continue r f v ≡ (ok b, w')
      → (a : A) × (r ≡ ok a) × (f a v ≡ (ok b, w'))
  continue-eq-ok (ok a) f v h = (a, refl, h)
  continue-eq-ok (err e) f v h = cc

  -- A chain that succeeds is a first step that succeeds and a rest that succeeds from there.
  pub bind-eq-ok :
      (m : Action A) (f : A → Action B) (w : World) {b : B} {w' : World}
      → (m >>= f) w ≡ (ok b, w')
      → (a : A) × (v : World) × (m w ≡ (ok a, v)) × (f a v ≡ (ok b, w'))
  unfolding ◌>>=◌
  bind-eq-ok m f w h =
      let (a, e, k) = continue-eq-ok (m w).0 f (m w).1 h in (a, (m w).1, λ i. (e i, (m w).1), k)
