-- ===== src/Mcp/Lines.antt =====
-- src/mcp/server.rs: the loop of `run`, which reads lines and writes an answer to each. The input is
-- the buffers that it comes in, none of them empty, up to its end; writing does not fail. The loop
-- runs on fuel, of which one more than there are bytes is enough: each round reads a byte or ends.
use trytet.Prelude.{
  ℕ, zero, suc, ◌+◌, ◌*◌, ◌≡◌, refl, arith, Bool, ◌&&◌, Option, none, some, List, [], ◌∷◌, ◌++◌,
  ltb, nat_beq, if◌then◌else◌, length, take, drop, length-drop, length-take, subst, sym, Bool-cases,
  inl, inr,
}
use native.Mathlib.Nat.{add_assoc}
use trytet.Cartridge.{Wasm}
use trytet.Economy.Crypto.{Ed25519, Hex}
use trytet.Sandbox.{Runtime}
use trytet.Mcp.{Response, Json}
use trytet.Mcp.Requests.{Moment, Errors, McpServer, Parsed, is_empty, answer_parsed}

-- `position(|&b| b == b'\n')`
unfoldable pub newline_at : List ℕ → Option ℕ
newline_at [] = none
newline_at (b ∷ bytes) =
    let later = newline_at bytes in
    if nat_beq b 10 then some 0 else elim later [ none ↦ none | some i ↦ some (i + 1) ]

-- What is left of a buffer, if anything is.
unfoldable pub push_back : List ℕ → List (List ℕ) → List (List ℕ)
push_back [] buffers = buffers
push_back (b ∷ bytes) buffers = (b ∷ bytes) ∷ buffers

pub data ReadLine : Type 0 where
  exceeded : ReadLine
  read_ : List ℕ → ℕ → List (List ℕ) → ReadLine

unfoldable pub max_line : ℕ
max_line = 10 * 1024 * 1024

-- `lossy` is `from_utf8_lossy`, taken of each piece of a line.
-- The limit on a line, before what comes next.
unfoldable pub limited : List ℕ → ReadLine → ReadLine
unfolding max_line
limited text next = if ltb max_line (length text) then exceeded else next

unfoldable pub read_line : (List ℕ → List ℕ) → List ℕ → ℕ → List (List ℕ) → ReadLine
unfolding newline_at push_back limited
read_line lossy line total [] = read_ line total []
read_line lossy line total (buf ∷ buffers) = elim (newline_at buf) [
  | some i ↦
      let text = line ++ lossy (take (i + 1) buf) in
      limited text
        (read_ text (total + length (take (i + 1) buf)) (push_back (drop (i + 1) buf) buffers))
  | none ↦
      let text = line ++ lossy buf in
      limited text (read_line lossy text (total + length buf) buffers)
]

-- The answers in order, and how the loop ended.
pub data Served {ℓ} (Value : Type ℓ) : Type ℓ where
  ended : List (Response Value) → Served Value
  too_long : List (Response Value) → Served Value
  out_of_fuel : Served Value

-- What follows a read: the loop ends at the end of the input, or serves the line.
unfoldable pub serve_line {ℓ} :
    {Value : Type ℓ}
    → (List ℕ → List (List ℕ) → Served Value)
    → List (Response Value)
    → ReadLine
    → Served Value
unfolding is_empty
serve_line serve written exceeded = too_long written
serve_line serve written (read_ line total rest) =
    if nat_beq total 0 && is_empty line then ended written else serve line rest

abbrev pub bytes_in : List (List ℕ) → ℕ
bytes_in [] = 0
bytes_in (buf ∷ buffers) = length buf + bytes_in buffers

bytes_in-push_back :
    (bytes : List ℕ) (buffers : List (List ℕ))
    → bytes_in (push_back bytes buffers) ≡ length bytes + bytes_in buffers
unfolding push_back
bytes_in-push_back [] buffers = omega arith
bytes_in-push_back (b ∷ bytes) buffers = refl

-- No byte is read twice, and none is lost.
abbrev pub Consumes : ℕ → ReadLine → Type 0
Consumes n exceeded = Unit
Consumes n (read_ line total rest) = total + bytes_in rest ≡ n

limited-Consumes :
    (n : ℕ) (text : List ℕ) (next : ReadLine) → Consumes n next → Consumes n (limited text next)
unfolding limited
limited-Consumes n text next h = elim (Bool-cases (ltb max_line (length text))) [
  | inl long ↦ subst (λ b. Consumes n (if b then exceeded else next)) (sym long) tt
  | inr short ↦ subst (λ b. Consumes n (if b then exceeded else next)) (sym short) h
]

pub read_line-Consumes :
    (lossy : List ℕ → List ℕ) (line : List ℕ) (total : ℕ) (buffers : List (List ℕ))
    → Consumes (total + bytes_in buffers) (read_line lossy line total buffers)
unfolding read_line
read_line-Consumes lossy line total [] = refl
read_line-Consumes lossy line total (buf ∷ buffers) =
    let n = total + (length buf + bytes_in buffers) in
    let rest : Consumes n (read_line lossy (line ++ lossy buf) (total + length buf) buffers) =
      subst (λ n. Consumes n (read_line lossy (line ++ lossy buf) (total + length buf) buffers))
        (add_assoc total (length buf) (bytes_in buffers))
        (read_line-Consumes lossy (line ++ lossy buf) (total + length buf) buffers) in
    elim (newline_at buf)
      as (λ o. Consumes n (elim o as (λ _. ReadLine) [
        | some i ↦ limited (line ++ lossy (take (i + 1) buf)) (
            read_ (line ++ lossy (take (i + 1) buf)) (total + length (take (i + 1) buf))
              (push_back (drop (i + 1) buf) buffers))
        | none ↦
            limited (line ++ lossy buf)
              (read_line lossy (line ++ lossy buf) (total + length buf) buffers)
      ])) [
        | some i ↦
            limited-Consumes n (line ++ lossy (take (i + 1) buf))
              (read_ (line ++ lossy (take (i + 1) buf)) (total + length (take (i + 1) buf))
                (push_back (drop (i + 1) buf) buffers))
              (omega (
                arith,
                bytes_in-push_back (drop (i + 1) buf) buffers,
                length-drop (i + 1) buf,
                length-take (i + 1) buf,
              ))
        | none ↦
            limited-Consumes n (line ++ lossy buf)
              (read_line lossy (line ++ lossy buf) (total + length buf) buffers) rest
      ]

module _ (crypto : Ed25519) (hex : Hex) (runtime : Runtime) (json : Json) (wasm : Wasm)
    {Dir : Type 0} (read : Dir → List (List ℕ) → Option (List ℕ)) (errors : Errors) where
  -- What the loop takes from outside: text, JSON, and the moment of each request.
  pub record Input : Type 0 where
    pub lossy : List ℕ → List ℕ
    pub is_blank : List ℕ → Bool
    pub parse : List ℕ → Parsed crypto hex runtime json wasm read errors
    pub moment : ℕ → Moment

  unfoldable pub run_on :
      Input
      → ℕ
      → ℕ
      → McpServer wasm Dir
      → List (List ℕ)
      → List (Response json.Value)
      → Served json.Value
  unfolding read_line answer_parsed serve_line
  run_on input zero round s buffers written = out_of_fuel
  run_on input (suc fuel) round s buffers written =
      serve_line
        (λ line rest.
          let skipped = run_on input fuel (round + 1) s rest written in
          let (answer, s') =
            answer_parsed crypto hex runtime json wasm read errors (input.moment round) s
              (input.parse line) in
          let answered = run_on input fuel (round + 1) s' rest (written ++ answer ∷ []) in
          if input.is_blank line then skipped else answered)
        written (read_line input.lossy [] 0 buffers)

  unfoldable pub run : Input → McpServer wasm Dir → List (List ℕ) → Served json.Value
  unfolding run_on
  run input s buffers = run_on input (bytes_in buffers + 1) 0 s buffers []
