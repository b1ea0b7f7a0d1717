-- ===== src/Email/Keys.antt =====
-- Lists of emails whose keys are all different.
use vof_backend.Decision.Repo.{key}
use vof_backend.Email.Messages.{Outbound, EmailWorld}
use vof_backend.Email.Models.{DeliveryRoute, EmailMessage}
use vof_backend.Email.Repo.{exists_by_idem}
use vof_backend.Prelude.{◌≡◌, refl, ap, false, ◌||◌, List, [], ◌∷◌, ◌++◌, map, arith}
use vof_backend.Text.{Text, text_eq, text_eq_iff}

-- The keys of the rows are all different.
abbrev pub KeysOnce : List EmailMessage → Type 0
KeysOnce [] = Unit
KeysOnce (m ∷ ms) = (exists_by_idem m.correlation_idempotency_key ms ≡ false) × KeysOnce ms

pub exists_by_idem-append :
    (key : Text) (ms : List EmailMessage) (m : EmailMessage)
    → exists_by_idem key (ms ++ (m ∷ []))
      ≡ (exists_by_idem key ms || text_eq m.correlation_idempotency_key key)
unfolding exists_by_idem
exists_by_idem-append key [] m = ground arith
exists_by_idem-append key (x ∷ ms) m = ground (arith, exists_by_idem-append key ms m)

text_eq_sym : (s t : Text) → text_eq s t ≡ false → text_eq t s ≡ false
text_eq_sym s t h = ground (arith, text_eq_iff s t, text_eq_iff t s)

pub KeysOnce-append :
    (ms : List EmailMessage) (m : EmailMessage)
    → exists_by_idem m.correlation_idempotency_key ms ≡ false
    → KeysOnce ms
    → KeysOnce (ms ++ (m ∷ []))
unfolding exists_by_idem
KeysOnce-append [] m h once = (refl, tt)
KeysOnce-append (x ∷ ms) m h once = (
  ground (
    arith,
    exists_by_idem-append x.correlation_idempotency_key ms m,
    text_eq_sym x.correlation_idempotency_key m.correlation_idempotency_key,
    once.0,
  ),
  KeysOnce-append ms m (ground arith) once.1,
)

abbrev pub addressed : Outbound → DeliveryRoute × Text
addressed o = (o.route, o.to)

abbrev pub recorded : EmailMessage → DeliveryRoute × Text
recorded m = (m.provider, m.recipient_addr)

-- Each email that a provider accepted is one row, in order, and no key has two rows.
pub record Accounted (w : EmailWorld) : Type 0 where
  pub rows : map addressed w.outbox ≡ map recorded w.emails
  pub once : KeysOnce w.emails

pub map-append {ℓ κ} :
    {A : Type ℓ} {B : Type κ} (f : A → B) (xs : List A) (a : A)
    → map f (xs ++ (a ∷ [])) ≡ map f xs ++ (f a ∷ [])
map-append f [] a = refl
map-append f (x ∷ xs) a = ap (λ l. f x ∷ l) (map-append f xs a)
