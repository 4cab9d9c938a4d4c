-- ===== src/Engine/Validators.antt =====
-- engine/personas/validators.py: the validation of a persona's output, with one repair. A completion is
-- an answer of the client to the messages of its call, and the client answers anew at each call: the
-- n-th call gets `answer n messages`, where `none` is an exception of the client, which passes through. The parsing against the target model is a parameter, with the
-- error's text on the right.
pub mod Laws
mod Tests
use dev_harness.Common.{
  some, ℕ, zero, suc, ◌+◌, String, ◌⊎◌, inl, inr, not, Option, none, List, [], ◌∷◌, ◌++◌,
}
use Prim.Native.String.{◌++◌ as str_append}

pub data Role : Type 0 where
  system user assistant tool : Role

pub record Message : Type 0 where
  pub role : Role
  pub content : String
  pub name : Option String

abbrev pub max_repairs : ℕ
max_repairs = 1

unfoldable pub default_repair_prompt : String → String → String
default_repair_prompt raw error =
    str_append "Your previous output was not a valid JSON object for the required schema.\nError: "
      (str_append error (
        str_append
          "\nReturn ONLY one corrected JSON object that satisfies the output contract. No prose and no markdown fences.\nPrevious output:\n"
          raw))

pub data Validation (V : Type 0) : Type 0 where
  valid : (value : V) (retries : ℕ) → Validation V
  persona_output_error : (error : String) (retries : ℕ) → Validation V
  client_error : Validation V

module _ {V : Type 0} (parse : String → V ⊎ String) (repair_prompt : String → String → String)
    (answer : ℕ → List Message → Option String) where
  abbrev pub repair_messages : List Message → String → String → List Message
  repair_messages messages text error =
      messages
      ++ record { role = assistant; content = text; name = none }
        ∷ record { role = user; content = repair_prompt text error; name = none }
        ∷ []

  -- The loop over the repairs that are left, after `retries` of them, with the text and the error of the
  -- last completion; also the messages of the calls that are made.
  unfoldable pub repair :
      ℕ → ℕ → List Message → String → String → Validation V × List (List Message)
  repair zero retries messages text error = (persona_output_error error retries, [])
  repair (suc left) retries messages text error =
      let asked = repair_messages messages text error in
      elim (answer (retries + 1) asked) [
        | none ↦ (client_error, asked ∷ [])
        | some again ↦ elim (parse again) [
          | inl value ↦ (valid value (retries + 1), asked ∷ [])
          | inr error' ↦
              let (result, calls) = repair left (retries + 1) messages again error' in
              (result, asked ∷ calls)
        ]
      ]

  -- `PersonaOutputValidator.validate`
  unfoldable pub validate : List Message → Validation V × List (List Message)
  unfolding repair
  validate messages = elim (answer 0 messages) [
    | none ↦ (client_error, messages ∷ [])
    | some text ↦ elim (parse text) [
      | inl value ↦ (valid value 0, messages ∷ [])
      | inr error ↦
          let (result, calls) = repair max_repairs 0 messages text error in
          (result, messages ∷ calls)
    ]
  ]
