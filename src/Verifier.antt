-- ===== src/Verifier.antt =====
-- The verifier (internal/components/verifier/verifier.go). The YAML library, the template engine
-- and go-cmp are the operations of an `Engine`.
pub mod Functions
use skywalking_infra_e2e.Base.{
  Bool, true, not, Option, none, some, ◌≡◌, ◌↔◌, refl, ◌++◌, Text, codes, Result, ok, err, arith,
  if◌then◌else◌,
}

pub record Engine : Type 1 where
  pub Value : Type 0
  pub Template : Type 0
  pub unmarshal : Text → Result Value
  pub parse : Text → Result Template
  pub execute : Template → Value → Result Text
  pub equal : Value → Value → Bool
  pub diff : Value → Value → Text

-- A `MismatchError` holds the difference; any other error is its message.
pub data VerifyError : Type 0 where
  mismatch : Text → VerifyError
  failure : Text → VerifyError

-- `Error` of both kinds of error.
abbrev pub error_text : VerifyError → Text
error_text (mismatch diff) = diff
error_text (failure msg) = msg

module _ (e : Engine) where
  compare_data : e.Value → e.Value → Option VerifyError
  compare_data expected actual =
      if not (e.equal expected actual)
      then some (mismatch (codes "mismatch (-want +got):\n" ++ e.diff expected actual))
      else none

  -- `Verify`
  unfoldable pub verify : Text → Text → Option VerifyError
  unfolding compare_data
  verify actual_data expected_template = elim (e.unmarshal actual_data) [
    | err x ↦ some (failure (codes "failed to unmarshal actual data: " ++ x))
    | ok actual ↦ elim (e.parse expected_template) [
      | err x ↦ some (failure (codes "failed to parse template: " ++ x))
      | ok tmpl ↦ elim (e.execute tmpl actual) [
        | err x ↦ some (failure (codes "failed to execute template: " ++ x))
        | ok b ↦ elim (e.unmarshal b) [
          | err x ↦ some (failure (codes "failed to unmarshal expected data: " ++ x))
          | ok expected ↦ compare_data expected actual
        ]
      ]
    ]
  ]

  -- The data match the template: both are well formed, and the template, filled with the data,
  -- reads back as a value that is equal to the data.
  pub record Matches (actual_data expected_template : Text) : Type 0 where
    pub actual : e.Value
    pub tmpl : e.Template
    pub filled : Text
    pub expected : e.Value
    pub reads : e.unmarshal actual_data ≡ ok actual
    pub parses : e.parse expected_template ≡ ok tmpl
    pub executes : e.execute tmpl actual ≡ ok filled
    pub reads_back : e.unmarshal filled ≡ ok expected
    pub equals : e.equal expected actual ≡ true

  verify_sound : (a t : Text) → Matches a t → verify a t ≡ none
  unfolding verify
  verify_sound a t m = ground arith

  verify_complete : (a t : Text) → verify a t ≡ none → Matches a t
  unfolding verify
  verify_complete a t h = read (e.unmarshal a) refl
    where
      last :
          (x : e.Value) (q : e.Template) (b : Text) (y : e.Value)
          → e.unmarshal a ≡ ok x
          → e.parse t ≡ ok q
          → e.execute q x ≡ ok b
          → e.unmarshal b ≡ ok y
          → Matches a t
      last x q b y i j k l = record {
        actual = x;
        tmpl = q;
        filled = b;
        expected = y;
        reads = i;
        parses = j;
        executes = k;
        reads_back = l;
        equals = ground arith;
      }

      back :
          (x : e.Value) (q : e.Template) (b : Text) (r : Result e.Value)
          → e.unmarshal a ≡ ok x
          → e.parse t ≡ ok q
          → e.execute q x ≡ ok b
          → e.unmarshal b ≡ r
          → Matches a t
      back x q b (err z) i j k l = absurd (ground arith)
      back x q b (ok y) i j k l = last x q b y i j k l

      fill :
          (x : e.Value) (q : e.Template) (r : Result Text)
          → e.unmarshal a ≡ ok x
          → e.parse t ≡ ok q
          → e.execute q x ≡ r
          → Matches a t
      fill x q (err z) i j k = absurd (ground arith)
      fill x q (ok b) i j k = back x q b (e.unmarshal b) i j k refl

      template :
          (x : e.Value) (r : Result e.Template) → e.unmarshal a ≡ ok x → e.parse t ≡ r → Matches a t
      template x (err z) i j = absurd (ground arith)
      template x (ok q) i j = fill x q (e.execute q x) i j refl

      read : (r : Result e.Value) → e.unmarshal a ≡ r → Matches a t
      read (err z) i = absurd (ground arith)
      read (ok x) i = template x (e.parse t) i refl

  -- `Verify` reports no error exactly where the data match the template: both are well formed, and
  -- the template, filled with the data, reads back as a value that is equal to the data.
  pub verify_iff : (a t : Text) → (verify a t ≡ none) ↔ Matches a t
  verify_iff a t = (verify_complete a t, verify_sound a t)
