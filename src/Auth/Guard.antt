-- ===== src/Auth/Guard.antt =====
-- Who passes the middleware.
use Prim.Native.String.{◌++◌ as ◌<>◌}
use youtube_webhook_ingestio.Base.{
  String, ◌≡◌, ◌≢◌, ◌↔◌, refl, ap, arith, ◌∙◌, ◌⊎◌, inl, inr, true, false, not, ◌&&◌, List, [], ◌∷◌,
  ◌++◌, ◌==◌, eq_iff, is_member, if◌then◌else◌, Bool-cases,
}
use youtube_webhook_ingestio.Base.Text.{
  has_prefix, has_prefix-append, trim_prefix-append, append-trim_prefix,
}
use youtube_webhook_ingestio.World.{World}
use youtube_webhook_ingestio.Http.{Request, Handler, respond}
use youtube_webhook_ingestio.Auth.{
  add_key, add_keys, new_api_key_auth, extract_api_key, is_valid_api_key, unauthorized, middleware,
}

-- The text is one of the list's.
pub data Among (k : String) : List String → Type 0 where
  here : {x : String} {xs : List String} → k ≡ x → Among k (x ∷ xs)
  there : {x : String} {xs : List String} → Among k xs → Among k (x ∷ xs)

is_member-append :
    (k x : String) (ys : List String)
    → is_member k (ys ++ x ∷ []) ≡ (if is_member k ys then true else k == x)
is_member-append k x [] = ground arith
is_member-append k x (y ∷ ys) = ground (arith, is_member-append k x ys)

-- One step of the loop, on the test that the handler will make.
is_member-add_key :
    (k x : String) (m : List String)
    → is_member k (add_key m x) ≡ (if is_member k m then true else (k == x) && not (x == ""))
unfolding add_key
is_member-add_key k x m = elim (Bool-cases (k == x)) [
  | inl q ↦ ground (arith, q, is_member-append k x m, ap (λ y. is_member y m) ((eq_iff k x).0 q))
  | inr q ↦ ground (arith, q, is_member-append k x m)
]

add_keys_sound :
    (k : String) (m keys : List String)
    → k ≢ ""
    → is_member k (add_keys m keys) ≡ true
    → (is_member k m ≡ true) ⊎ Among k keys
unfolding add_keys
add_keys_sound k m [] n q = inl q
add_keys_sound k m (x ∷ keys) n q = elim (add_keys_sound k (add_key m x) keys n q) [
  | inr a ↦ inr (there a)
  | inl j ↦ elim (Bool-cases (k == x)) [
    | inl e ↦ inr (here ((eq_iff k x).0 e))
    | inr e ↦ inl (ground (arith, e, j, is_member-add_key k x m))
  ]
]

add_keys-keep :
    (k : String) (m keys : List String)
    → is_member k m ≡ true
    → is_member k (add_keys m keys) ≡ true
unfolding add_keys
add_keys-keep k m [] q = q
add_keys-keep k m (x ∷ keys) q =
    add_keys-keep k (add_key m x) keys (ground (arith, q, is_member-add_key k x m))

nonempty-false : (k : String) → k ≢ "" → (k == "") ≡ false
nonempty-false k n = elim (Bool-cases (k == "")) [
  | inl q ↦ absurd (n ((eq_iff k "").0 q))
  | inr q ↦ q
]

add_keys_complete :
    (k : String) (m keys : List String)
    → k ≢ ""
    → Among k keys
    → is_member k (add_keys m keys) ≡ true
unfolding add_keys
add_keys_complete k m [] n a = elim a [ ]
add_keys_complete k m (x ∷ keys) n (here e) = add_keys-keep k (add_key m x) keys (
    ground
      (arith, is_member-add_key k x m, (eq_iff k x).1 e, ap (λ y. y == "") e, nonempty-false k n))
add_keys_complete k m (x ∷ keys) n (there a) = add_keys_complete k (add_key m x) keys n a

from_member :
    {k : String} {keys : List String} → (is_member k [] ≡ true) ⊎ Among k keys → Among k keys
from_member (inl q) = absurd (ground arith)
from_member (inr a) = a

valid_member :
    (m : List String) (k : String)
    → is_valid_api_key (record { api_keys = m }) k ≡ true
    → is_member k m ≡ true
unfolding is_valid_api_key
valid_member [] k q = absurd (ground arith)
valid_member (x ∷ xs) k q = ground arith

member_valid :
    (m : List String) (k : String)
    → (k == "") ≡ false
    → is_member k m ≡ true
    → is_valid_api_key (record { api_keys = m }) k ≡ true
unfolding is_valid_api_key
member_valid [] k n q = absurd (ground arith)
member_valid (x ∷ xs) k n q = ground arith

-- The keys that the middleware accepts are the non-empty texts among those it was made with.
pub is_valid_api_key_iff :
    (keys : List String) (k : String)
    → (is_valid_api_key (new_api_key_auth keys) k ≡ true) ↔ ((k ≢ "") × Among k keys)
unfolding is_valid_api_key new_api_key_auth
is_valid_api_key_iff keys k = (
  λ q.
      let n : k ≢ "" = λ e. ground (arith, q, (eq_iff k "").1 e) in
      (n, from_member (add_keys_sound k [] keys n (valid_member (add_keys [] keys) k q))),
  λ (n, a).
      member_valid (add_keys [] keys) k (nonempty-false k n) (add_keys_complete k [] keys n a),
)

-- A request presents a key by its header X-API-Key, or, where that is empty or missing, by an
-- Authorization header that is "Bearer " and the key.
pub data Presents (r : Request) (k : String) : Type 0 where
  by_header : r.header "X-API-Key" ≡ k → k ≢ "" → Presents r k
  by_bearer : r.header "X-API-Key" ≡ "" → r.header "Authorization" ≡ "Bearer " <> k → Presents r k

extract-presented : (r : Request) (k : String) → Presents r k → extract_api_key r ≡ k
unfolding extract_api_key
extract-presented r k (by_header e n) = ground (arith, e, ap (λ y. y == "") e, nonempty-false k n)
extract-presented r k (by_bearer e b) =
    simp (e, b, has_prefix-append "Bearer " k) (trim_prefix-append "Bearer " k)

extracted-Presents : (r : Request) → extract_api_key r ≢ "" → Presents r (extract_api_key r)
unfolding extract_api_key
extracted-Presents r n = elim (Bool-cases (r.header "X-API-Key" == "")) [
  | inr q ↦ simp q (by_header refl (λ e. ground (arith, q, (eq_iff (r.header "X-API-Key") "").1 e)))
  | inl q ↦ elim (Bool-cases (has_prefix (r.header "Authorization") "Bearer ")) [
    | inl j ↦
        simp (q, j)
          (by_bearer ((eq_iff (r.header "X-API-Key") "").0 q)
            (append-trim_prefix (r.header "Authorization") "Bearer " j))
    | inr j ↦ absurd (n (simp (q, j) refl))
  ]
]

-- A request that presents one of the keys, which is not empty, is handed to the next handler, which
-- answers it.
middleware-authorized :
    (keys : List String) (next : Request → Handler) (r : Request) (k : String) (w : World)
    → Presents r k
    → k ≢ ""
    → Among k keys
    → middleware (new_api_key_auth keys) next r w ≡ next r w
unfolding middleware
middleware-authorized keys next r k w p n a =
    let v : is_valid_api_key (new_api_key_auth keys) (extract_api_key r) ≡ true =
      ap (is_valid_api_key (new_api_key_auth keys)) (extract-presented r k p)
      ∙ (is_valid_api_key_iff keys k).1 (n, a) in
    simp v refl

-- A request that presents none of the keys is answered by 401, whatever the next handler would do,
-- and the world is as it was.
pub middleware-unauthorized :
    (keys : List String) (next : Request → Handler) (r : Request) (w : World)
    → ((k : String) → Presents r k → ¬ Among k keys)
    → middleware (new_api_key_auth keys) next r w ≡ (unauthorized, w)
unfolding middleware respond
middleware-unauthorized keys next r w f =
    elim (Bool-cases (is_valid_api_key (new_api_key_auth keys) (extract_api_key r))) [
      | inl q ↦
          let (n, a) = (is_valid_api_key_iff keys (extract_api_key r)).0 q in
          absurd (f (extract_api_key r) (extracted-Presents r n) a)
      | inr q ↦ simp q refl
    ]
