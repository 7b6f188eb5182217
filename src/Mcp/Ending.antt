-- ===== src/Mcp/Ending.antt =====
-- src/mcp/server.rs: the loop of `run` ends with its input.
use trytet.Prelude.{
  ℕ, zero, suc, ◌+◌, ◌<◌, ◌≤◌, ◌≡◌, refl, sym, arith, Bool, true, false, ◌&&◌, Option, none, some,
  List, [], ◌∷◌, ◌++◌, ltb, nat_beq, if◌then◌else◌, length, take, drop, subst, Bool-cases, inl, inr,
}
use trytet.Cartridge.{Wasm}
use trytet.Economy.Crypto.{Ed25519, Hex}
use trytet.Sandbox.{Runtime}
use trytet.Mcp.{Response, Json}
use trytet.Mcp.Requests.{Errors, McpServer, is_empty, answer_parsed}
use trytet.Mcp.Lines.{
  ReadLine, exceeded, read_, Served, ended, too_long, out_of_fuel, max_line, limited, read_line,
  newline_at, push_back, bytes_in, Consumes, read_line-Consumes, Input, serve_line, run_on, run,
}

-- A line is begun only by reading a byte.
abbrev Begun : List ℕ → ℕ → Type 0
Begun line total = total ≡ 0 → is_empty line ≡ true

abbrev BeginsWell : ReadLine → Type 0
BeginsWell exceeded = Unit
BeginsWell (read_ line total rest) = Begun line total

limited-BeginsWell :
    (text : List ℕ) (next : ReadLine) → BeginsWell next → BeginsWell (limited text next)
unfolding limited
limited-BeginsWell text next h = elim (Bool-cases (ltb max_line (length text))) [
  | inl long ↦ subst (λ b. BeginsWell (if b then exceeded else next)) (sym long) tt
  | inr short ↦ subst (λ b. BeginsWell (if b then exceeded else next)) (sym short) h
]

module _ (lossy : List ℕ → List ℕ) (lossy_nil : lossy [] ≡ []) where
  Begun-append :
      (line buf : List ℕ) (total : ℕ)
      → Begun line total
      → Begun (line ++ lossy buf) (total + length buf)
  unfolding is_empty
  Begun-append [] [] total h e = rw lossy_nil refl
  Begun-append (b ∷ line) [] total h e = h (omega arith)
  Begun-append line (b ∷ buf) total h e = absurd (omega arith)

  read_line-BeginsWell :
      (line : List ℕ) (total : ℕ) (buffers : List (List ℕ))
      → Begun line total
      → BeginsWell (read_line lossy line total buffers)
  unfolding read_line
  read_line-BeginsWell line total [] h = h
  read_line-BeginsWell line total (buf ∷ buffers) h =
      let rest = read_line lossy (line ++ lossy buf) (total + length buf) buffers in
      let later : BeginsWell rest =
        read_line-BeginsWell (line ++ lossy buf) (total + length buf) buffers
          (Begun-append line buf total h) in
      elim (newline_at buf)
        as (λ o. BeginsWell (elim o as (λ _. ReadLine) [
          | some i ↦ limited (line ++ lossy (take (i + 1) buf)) (
              read_ (line ++ lossy (take (i + 1) buf)) (total + length (take (i + 1) buf))
                (push_back (drop (i + 1) buf) buffers))
          | none ↦ limited (line ++ lossy buf) rest
        ])) [
          | some i ↦
              limited-BeginsWell (line ++ lossy (take (i + 1) buf))
                (read_ (line ++ lossy (take (i + 1) buf)) (total + length (take (i + 1) buf))
                  (push_back (drop (i + 1) buf) buffers))
                (Begun-append line (take (i + 1) buf) total h)
          | none ↦ limited-BeginsWell (line ++ lossy buf) rest later
        ]

-- Whether the loop was cut off.
abbrev pub is_cut {ℓ} : {Value : Type ℓ} → Served Value → Bool
is_cut (ended answers) = false
is_cut (too_long answers) = false
is_cut out_of_fuel = true

is_cut-if {ℓ} :
    {Value : Type ℓ} (total : ℕ) (empty : Bool) (a b : Served Value)
    → (total ≡ 0 → empty ≡ true)
    → is_cut a ≡ false
    → (1 ≤ total → is_cut b ≡ false)
    → is_cut (if nat_beq total 0 && empty then a else b) ≡ false
is_cut-if total empty a b h p q = ground arith

is_cut-choice {ℓ} :
    {Value : Type ℓ} (blank : Bool) (a b : Served Value)
    → is_cut a ≡ false
    → is_cut b ≡ false
    → is_cut (if blank then a else b) ≡ false
is_cut-choice true a b p q = p
is_cut-choice false a b p q = q

is_cut-serve_line {ℓ} :
    {Value : Type ℓ} (n : ℕ) (serve : List ℕ → List (List ℕ) → Served Value)
    (written : List (Response Value)) (r : ReadLine)
    → Consumes n r
    → BeginsWell r
    → ((line : List ℕ) (rest : List (List ℕ))
        → bytes_in rest < n
        → is_cut (serve line rest) ≡ false)
    → is_cut (serve_line serve written r) ≡ false
unfolding serve_line
is_cut-serve_line n serve written exceeded c b h = refl
is_cut-serve_line n serve written (read_ line total rest) c b h =
    is_cut-if total (is_empty line) (ended written) (serve line rest) b refl
      (λ some_read. h line rest (omega arith))

module _ (crypto : Ed25519) (hex : Hex) (runtime : Runtime) (json : Json) (wasm : Wasm)
    {Dir : Type 0} (read : Dir → List (List ℕ) → Option (List ℕ)) (errors : Errors)
    (input : Input crypto hex runtime json wasm read errors) (lossy_nil : input.lossy [] ≡ []) where
  run_on-ends :
      (fuel round : ℕ) (s : McpServer wasm Dir) (buffers : List (List ℕ))
      (written : List (Response json.Value))
      → bytes_in buffers < fuel
      → is_cut (run_on crypto hex runtime json wasm read errors input fuel round s buffers written)
        ≡ false
  unfolding run_on
  run_on-ends zero round s buffers written h = absurd (omega arith)
  run_on-ends (suc fuel) round s buffers written h =
      is_cut-serve_line (0 + bytes_in buffers) _ written (read_line input.lossy [] 0 buffers)
        (read_line-Consumes input.lossy [] 0 buffers)
        (read_line-BeginsWell input.lossy lossy_nil [] 0 buffers (λ e. refl))
        (λ line rest fewer.
          is_cut-choice (input.is_blank line) _ _
            (run_on-ends fuel (round + 1) s rest written (omega arith))
            (run_on-ends fuel (round + 1)
              (answer_parsed crypto hex runtime json wasm read errors (input.moment round) s
                (input.parse line)).1
              rest _ (omega arith)))

  -- When no bytes are decoded as no text, the server comes to its end, whatever the input and
  -- whatever the requests: at the end of the input or at a line that is too long.
  pub run-ends :
      (s : McpServer wasm Dir) (buffers : List (List ℕ))
      → is_cut (run crypto hex runtime json wasm read errors input s buffers) ≡ false
  unfolding run
  run-ends s buffers = run_on-ends (bytes_in buffers + 1) 0 s buffers [] (omega arith)
