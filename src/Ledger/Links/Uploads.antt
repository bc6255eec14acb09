-- ===== src/Ledger/Links/Uploads.antt =====
-- The keys of vios/capture/ledger.py for videos that stand in the channel alone.
use Prim.Native.Char.{Char, code}
use vios_manus.Common.{
  ℕ, zero, suc, ◌+◌, ◌/◌, ◌%◌, ◌<◌, ◌≡◌, refl, ap, ◌∙◌, Bool, true, some, List, [], ◌∷◌, ◌++◌,
  arith, ◌==◌, All, Bool-cases, inl, inr,
}
use vios_manus.Ledger.Links.{
  chars, text, digit, digits, upload_key, drop_exact, value, is_digit_char, run_of, after_run,
  some_digits, match_upload, is_upload, upload_msg_id,
}
use vios_manus.Ledger.Links.Roundtrip.{chars-text}

code-digit : (d : ℕ) → d < 10 → code (digit d) ≡ b'0' + d
unfolding digit
code-digit zero h = refl
code-digit (suc zero) h = refl
code-digit (suc (suc zero)) h = refl
code-digit (suc (suc (suc zero))) h = refl
code-digit (suc (suc (suc (suc zero)))) h = refl
code-digit (suc (suc (suc (suc (suc zero))))) h = refl
code-digit (suc (suc (suc (suc (suc (suc zero)))))) h = refl
code-digit (suc (suc (suc (suc (suc (suc (suc zero))))))) h = refl
code-digit (suc (suc (suc (suc (suc (suc (suc (suc zero)))))))) h = refl
code-digit (suc (suc (suc (suc (suc (suc (suc (suc (suc zero))))))))) h = refl
code-digit (suc (suc (suc (suc (suc (suc (suc (suc (suc (suc n)))))))))) h = absurd (omega arith)

value-digits : (fuel n : ℕ) (out : List Char) → n < fuel → value 0 (digits fuel n out) ≡ value n out
unfolding digits value
value-digits zero n out h = absurd (omega arith)
value-digits (suc fuel) n out h = elim (Bool-cases (n / 10 == 0)) [
  | inl e ↦ rw (digits, e) (ap (λ k. value k out) (ground (arith, code-digit (n % 10))))
  | inr e ↦
      rw (digits, e)
        (value-digits fuel (n / 10) (digit (n % 10) ∷ out) (ground arith)
          ∙ ap (λ k. value k out) (ground (arith, code-digit (n % 10))))
]

digit-is_digit : (d : ℕ) → d < 10 → is_digit_char (digit d) ≡ true
digit-is_digit d h = ground (arith, code-digit d h)

All-digits :
    (fuel n : ℕ) (out : List Char)
    → All (λ c. is_digit_char c ≡ true) out
    → All (λ c. is_digit_char c ≡ true) (digits fuel n out)
unfolding digits
All-digits zero n out h = h
All-digits (suc fuel) n out h =
    let one : All (λ c. is_digit_char c ≡ true) (digit (n % 10) ∷ out) =
      (digit-is_digit (n % 10) (omega arith), h) in
    elim (Bool-cases (n / 10 == 0)) [
      | inl e ↦ rw (digits, e) one
      | inr e ↦ rw (digits, e) (All-digits fuel (n / 10) (digit (n % 10) ∷ out) one)
    ]

-- The digits stand in front of what is there, and there is one at least.
digits_some :
    (fuel n : ℕ) (c : Char) (out : List Char)
    → (d : Char) × (ds : List Char) × (digits fuel n (c ∷ out) ≡ d ∷ ds)
unfolding digits
digits_some zero n c out = (c, out, refl)
digits_some (suc fuel) n c out = elim (Bool-cases (n / 10 == 0)) [
  | inl e ↦ (digit (n % 10), c ∷ out, rw (digits, e))
  | inr e ↦
      let (d, ds, f) = digits_some fuel (n / 10) (digit (n % 10)) (c ∷ out) in
      (d, ds, rw (digits, e) f)
]

digits_first : (n : ℕ) → (d : Char) × (ds : List Char) × (digits (suc n) n [] ≡ d ∷ ds)
unfolding digits
digits_first n = elim (Bool-cases (n / 10 == 0)) [
  | inl e ↦ (digit (n % 10), [], rw (digits, e))
  | inr e ↦ let (d, ds, f) = digits_some n (n / 10) (digit (n % 10)) [] in (d, ds, rw (digits, e) f)
]

run_of_all : (p : Char → Bool) (s : List Char) → All (λ c. p c ≡ true) s → run_of p s ≡ s
unfolding run_of
run_of_all p [] h = refl
run_of_all p (c ∷ s) h = rw h.0 (ap (λ t. c ∷ t) (run_of_all p s h.1))

after_run_all : (p : Char → Bool) (s : List Char) → All (λ c. p c ≡ true) s → after_run p s ≡ []
unfolding after_run
after_run_all p [] h = refl
after_run_all p (c ∷ s) h = rw h.0 (after_run_all p s h.1)

match_upload-text :
    (run : List Char)
    → All (λ c. is_digit_char c ≡ true) run
    → match_upload (text (chars "up_" ++ run)) ≡ some_digits run []
unfolding match_upload drop_exact
match_upload-text run h =
    rw (chars-text run, run_of_all is_digit_char run h, after_run_all is_digit_char run h)

match_upload-upload_key : (n : ℕ) → match_upload (upload_key n) ≡ some (digits (suc n) n [])
unfolding upload_key
match_upload-upload_key n =
    let (d, ds, e) = digits_first n in
    match_upload-text (digits (suc n) n []) (All-digits (suc n) n [] tt) ∙ rw e refl

-- The key of a video that stands at a message is recognised as such, and gives back the message.
pub upload_msg_id-upload_key :
    (msg_id : ℕ)
    → (is_upload (upload_key msg_id) ≡ true) × (upload_msg_id (upload_key msg_id) ≡ msg_id)
unfolding is_upload upload_msg_id value
upload_msg_id-upload_key n = (
  rw (is_upload, match_upload-upload_key n),
  rw (upload_msg_id, match_upload-upload_key n) (value-digits (suc n) n [] (omega arith)),
)
