-- ===== src/Proxy/Answers/Texts.antt =====
-- The answers' texts (proxy.go) as the reader reads them. The verb %q writes printable ASCII as strconv
-- documents it: in quotation marks, with a backslash before quotation marks and backslashes.
use gql_firewall.Base.{
  ℕ, suc, zero, ◌<◌, ◌&&◌, All-map, ◌/◌, ◌%◌, Bytes, Bool, true, false, [], ◌∷◌, ◌++◌, some, codes,
  decimal, digits_from, hex_digit, ltb, leb, ◌==◌, ◌≡◌, refl, sym, ap, ◌∙◌, All, All-append,
  append_assoc, Bool-cases, inl, inr, arith, if◌then◌else◌,
}
use gql_firewall.Proxy.Answers.Reader.{is_plain, is_escapable, read_string, read_object}
use gql_firewall.Proxy.Batch.{empty_item, bad_item}
use gql_firewall.Proxy.Text.{
  is_printable, sanitize_reason, Context, body, json, query, eval, other, sanitize_error,
}

abbrev pub IsPrintable : Bytes → Type 0
IsPrintable = All (λ c. is_printable c ≡ true)

abbrev pub IsPlain : Bytes → Type 0
IsPlain = All (λ c. is_plain c ≡ true)

unfoldable pub escape : Bytes → Bytes
escape [] = []
escape (c ∷ t) = let rest = escape t in if is_escapable c then b'\\' ∷ c ∷ rest else c ∷ rest

abbrev pub in_quotes : Bytes → Bytes
in_quotes t = b'"' ∷ (escape t ++ b'"' ∷ [])

read_string-escape :
    (t rest : Bytes) → IsPrintable t → read_string false (escape t ++ b'"' ∷ rest) ≡ some (t, rest)
unfolding read_string escape is_printable
read_string-escape [] rest h = refl
read_string-escape (c ∷ t) rest h =
    let more = read_string-escape t rest h.1 in
    elim (Bool-cases (is_escapable c)) [
      | inl yes_ ↦ rw yes_ (rw more (rw yes_ refl))
      | inr no_ ↦
          let quote : (c == b'"') ≡ false = ground arith in
          let backslash : (c == b'\\') ≡ false = ground arith in
          let low : leb 32 c ≡ true = ground arith in
          let high : leb c 126 ≡ true = ground arith in
          rw no_ (rw (quote, read_string, backslash, low, high, more) refl)
    ]

escape-IsPlain : (t : Bytes) → IsPlain t → escape t ≡ t
unfolding escape
escape-IsPlain [] h = refl
escape-IsPlain (c ∷ t) h = ground (arith, escape-IsPlain t h.1)

pub read_error_text :
    (t : Bytes)
    → IsPrintable t
    → read_object (codes "{\"error\": \"" ++ (escape t ++ codes "\"}\n"))
      ≡ some ((codes "error", t) ∷ [])
unfolding read_object
read_error_text t h = rw (read_string-escape t (codes "}\n") h) refl

pub read_blocked_text :
    (t : Bytes)
    → IsPrintable t
    → read_object
        (codes "{\"error\": \"request blocked\", \"reason\": \"" ++ (escape t ++ codes "\"}"))
      ≡ some ((codes "error", codes "request blocked") ∷ (codes "reason", t) ∷ [])
unfolding read_object
read_blocked_text t h = rw (read_string-escape t (codes "}") h) refl

pub sanitize_reason-IsPrintable : (reason : Bytes) → IsPrintable (sanitize_reason reason)
unfolding sanitize_reason
sanitize_reason-IsPrintable [] = tt
sanitize_reason-IsPrintable (c ∷ reason) = elim (Bool-cases (is_printable c)) [
  | inl yes_ ↦ rw yes_ (yes_, sanitize_reason-IsPrintable reason)
  | inr no_ ↦ rw no_ (sanitize_reason-IsPrintable reason)
]

abbrev all_printable : Bytes → Bool
all_printable [] = true
all_printable (c ∷ s) = is_printable c && all_printable s

all_printable-IsPrintable : (s : Bytes) → all_printable s ≡ true → IsPrintable s
all_printable-IsPrintable [] h = tt
all_printable-IsPrintable (c ∷ s) h = (ground arith, all_printable-IsPrintable s (ground arith))

pub sanitize_error-IsPrintable : (context : Context) → IsPrintable (sanitize_error context)
unfolding sanitize_error is_printable
sanitize_error-IsPrintable body = all_printable-IsPrintable (sanitize_error body) refl
sanitize_error-IsPrintable json = all_printable-IsPrintable (sanitize_error json) refl
sanitize_error-IsPrintable query = all_printable-IsPrintable (sanitize_error query) refl
sanitize_error-IsPrintable eval = all_printable-IsPrintable (sanitize_error eval) refl
sanitize_error-IsPrintable (other c) = all_printable-IsPrintable (sanitize_error (other c)) refl

-- The texts with the number of a batch item.
hex_digit-is_plain : (n : ℕ) → n < 10 → is_plain (hex_digit n) ≡ true
hex_digit-is_plain n h = ground arith

digits_from-IsPlain :
    (fuel n : ℕ) (tail : Bytes) → IsPlain tail → IsPlain (digits_from fuel 10 n tail)
unfolding digits_from
digits_from-IsPlain zero n tail h = h
digits_from-IsPlain (suc fuel) n tail h = elim (Bool-cases (ltb n 10)) [
  | inl last ↦ rw last (rw last at (hex_digit-is_plain n (ground arith)), h)
  | inr more ↦ rw more (
      digits_from-IsPlain fuel (n / 10) (hex_digit (n % 10) ∷ tail)
        (hex_digit-is_plain (n % 10) (omega arith), h))
]

all_plain : Bytes → Bool
all_plain [] = true
all_plain (c ∷ s) = is_plain c && all_plain s

all_plain-IsPlain : (s : Bytes) → all_plain s ≡ true → IsPlain s
unfolding all_plain
all_plain-IsPlain [] h = tt
all_plain-IsPlain (c ∷ s) h = (ground arith, all_plain-IsPlain s (ground arith))

IsPlain-IsPrintable : (s : Bytes) → IsPlain s → IsPrintable s
unfolding is_printable
IsPlain-IsPrintable s h = All-map (λ c. is_plain c ≡ true) _ (λ c e. ground arith) s h

-- A plain text, in a text that is written without the verb.
read_plain_text :
    (t : Bytes)
    → IsPlain t
    → read_object (codes "{\"error\": \"" ++ (t ++ codes "\"}\n")) ≡ some ((codes "error", t) ∷ [])
read_plain_text t h = rw (escape-IsPlain t h) at (read_error_text t (IsPlain-IsPrintable t h))

decimal-IsPlain : (n : ℕ) → IsPlain (decimal n)
unfolding decimal
decimal-IsPlain n = digits_from-IsPlain 19 n [] tt

pub read_empty_item :
    (n : ℕ)
    → read_object (empty_item n ++ codes "\n")
      ≡ some ((codes "error", codes "batch item " ++ (decimal n ++ codes " has empty query")) ∷ [])
unfolding empty_item all_plain
read_empty_item n =
    let text = codes "batch item " ++ (decimal n ++ codes " has empty query") in
    let plain : IsPlain text =
      All-append (λ c. is_plain c ≡ true) (codes "batch item ") _
        (all_plain-IsPlain (codes "batch item ") refl)
        (All-append (λ c. is_plain c ≡ true) (decimal n) _ (decimal-IsPlain n)
          (all_plain-IsPlain (codes " has empty query") refl)) in
    let same : empty_item n ++ codes "\n" ≡ codes "{\"error\": \"" ++ (text ++ codes "\"}\n") =
      ap (λ s. codes "{\"error\": \"batch item " ++ s)
        (append_assoc (decimal n) (codes " has empty query\"}") (codes "\n")
          ∙ sym (append_assoc (decimal n) (codes " has empty query") (codes "\"}\n"))) in
    ap read_object same ∙ read_plain_text text plain

pub read_bad_item :
    (n : ℕ)
    → read_object (bad_item n ++ codes "\n")
      ≡ some ((codes "error", codes "invalid GraphQL query at batch index " ++ decimal n) ∷ [])
unfolding bad_item all_plain
read_bad_item n =
    let text = codes "invalid GraphQL query at batch index " ++ decimal n in
    let plain : IsPlain text =
      All-append (λ c. is_plain c ≡ true) (codes "invalid GraphQL query at batch index ") _
        (all_plain-IsPlain (codes "invalid GraphQL query at batch index ") refl)
        (decimal-IsPlain n) in
    let same : bad_item n ++ codes "\n" ≡ codes "{\"error\": \"" ++ (text ++ codes "\"}\n") =
      ap (λ s. codes "{\"error\": \"invalid GraphQL query at batch index " ++ s)
        (append_assoc (decimal n) (codes "\"}") (codes "\n")) in
    ap read_object same ∙ read_plain_text text plain
