-- ===== src/Worker/Message/Headers.antt =====
-- A header that is set is read back, and the others stay.
use scribeflow.Prelude.{ℕ, ◌≡◌, ap, List, [], ◌∷◌, Option, some, arith, if◌then◌else◌}
use scribeflow.Prelude.Int.{ℤ}
use scribeflow.Text.{Text, text_eq}
use scribeflow.Text.Utf8.{Bytes}
use scribeflow.Text.Equality.{text_eq_iff, text_eq_refl}
use scribeflow.Worker.Message.{
  Python, HeaderValue, number, Message, retry_count_header, lookup, with_entry, retry_count, parse,
  payload_of,
}

pub lookup-with_entry {ℓ} :
    {A : Type ℓ} (key name : Text) (value : A) (dict : List (Text × A))
    → lookup name (with_entry key value dict)
      ≡ (if text_eq key name then some value else lookup name dict)
unfolding lookup with_entry
lookup-with_entry key name value [] = ground arith
lookup-with_entry key name value ((k, v) ∷ dict) = ground (
  arith,
  lookup-with_entry key name value dict,
  text_eq_iff k key,
  text_eq_iff k name,
  text_eq_iff key name,
)

module _ (P : Python) where
  -- The count that is written into a message is the one that is read from it.
  pub retry_count-set :
      (body : Bytes) (expiration : Option ℕ) (n : ℤ) (headers : List (Text × HeaderValue P.Foreign))
      → retry_count P (record {
        body = body;
        headers = with_entry retry_count_header (number n) headers;
        expiration = expiration;
      })
        ≡ n
  unfolding retry_count
  retry_count-set body expiration n headers = rw (
    lookup-with_entry retry_count_header retry_count_header (number n) headers,
    text_eq_refl retry_count_header,
  )

  -- What a message names depends on its body only.
  pub parse-same_body : (m copy : Message P.Foreign) → copy.body ≡ m.body → parse P copy ≡ parse P m
  unfolding parse
  parse-same_body m copy e = ap (λ body. payload_of P (P.loads body)) e
