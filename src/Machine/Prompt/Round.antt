-- ===== src/Machine/Prompt/Round.antt =====
-- A round of the command prompt.
use fos_v.Base.{
  ℕ, zero, suc, ◌+◌, ◌-◌, ◌<◌, ◌≡◌, refl, ap, ◌∙◌, subst, true, false, Option, Option-cases, none,
  some, inl, inr, List, [], ◌∷◌, ◌++◌, map, if◌then◌else◌, arith, length,
}
use fos_v.Int.{ℤ, pos, negsuc, is_negative}
use fos_v.Format.{Line, readline}
use fos_v.Format.Editing.{Printable, readline-typed}
use fos_v.String.{Bytes}
use fos_v.String.Cstr.{CStr}
use fos_v.Machine.{Machine, Reply, ok, enter, Act, pure, and_then}
use fos_v.Machine.Returns.{is_ok, and_then-is_ok}
use fos_v.Machine.Commands.{execute_command}
use fos_v.Machine.Commands.Success.{returns_zero, execute_command-zero}
use fos_v.Machine.Prompt.{buffer, read_in, get_line, run_command_prompt}

-- The loop goes on behind a call that returns 0 if it returns.
goes_on :
    (r : Reply ℤ) (next : Act (Unit {0}))
    → returns_zero r ≡ true
    → and_then r (λ x. if is_negative x then pure tt else next) ≡ and_then r (λ _. next)
goes_on (ok (pos n) m) next zero_only = refl
goes_on (ok (negsuc n) m) next zero_only = cc
goes_on Reply.panicked next zero_only = refl
goes_on Reply.fault next zero_only = refl
goes_on (enter tf m) next zero_only = refl
goes_on (Reply.prompt m) next zero_only = refl
goes_on Reply.no_input next zero_only = refl
goes_on Reply.no_fuel next zero_only = refl

-- A string in the buffer stands in the memory.
read_in-CStr :
    (bytes : Bytes) (line : ℕ) (l : Line) (k : ℕ) (xs : List ℕ)
    → CStr l.line k xs
    → CStr (read_in bytes line l) (line + k) xs
read_in-CStr bytes line l k [] string =
    let same : line + k - line ≡ k = omega arith in ground (arith, ap l.line same)
read_in-CStr bytes line l k (x ∷ xs) (first, full, rest) =
    let same : line + k - line ≡ k = omega arith in
    let next : line + (k + 1) ≡ line + k + 1 = omega arith in
    (
      ground (arith, ap l.line same),
      full,
      subst (λ a. CStr (read_in bytes line l) a xs) next
          (read_in-CStr bytes line l (k + 1) xs rest),
    )

module _ (bytes : Bytes) (line : ℕ) (m : Machine) where
  get_line-some :
      (l : Line) (rest : List ℤ)
      → readline m.input (buffer bytes line) ≡ some (l, rest)
      → get_line bytes line m ≡ ok (read_in bytes line l) (record m { input = rest })
  unfolding get_line
  get_line-some l rest run = rw (get_line, run) refl

  get_line-none :
      readline m.input (buffer bytes line) ≡ none → get_line bytes line m ≡ Reply.no_input
  unfolding get_line
  get_line-none ended = rw (get_line, ended) refl

module _ (read_byte : ℕ → Machine → Option ℕ) (write_byte : ℕ → ℕ → Machine → Option Machine)
    (ptr_page_directory fuel white line : ℕ) (stack : ℕ → Bytes) (arguments : ℕ → ℕ → ℕ) where
  abbrev prompt : ℕ → Act (Unit {0})
  prompt =
      run_command_prompt read_byte write_byte ptr_page_directory fuel white line stack arguments

  abbrev execute : ℕ → Bytes → Act ℤ
  execute n command_line =
      execute_command read_byte write_byte ptr_page_directory fuel command_line white line
        (arguments n)

  -- What a round does with a line
  abbrev execute_line : ℕ → Bytes → Act (Unit {0})
  execute_line n command_line m =
      and_then (execute n command_line m) (λ x. if is_negative x then pure tt else prompt n)

  -- A line is executed and the loop goes on.
  prompt-line :
      (n : ℕ) (m : Machine) (l : Line) (rest : List ℤ)
      → readline m.input (buffer (stack n) line) ≡ some (l, rest)
      → prompt (suc n) m
        ≡ and_then
            (execute n (read_in (stack n) line l) (record m { input = rest }))
            (λ _. prompt n)
  unfolding run_command_prompt
  prompt-line n m l rest run =
      let command_line = read_in (stack n) line l in
      let m' = record m { input = rest } in
      ap (λ r. and_then r (execute_line n)) (get_line-some (stack n) line m l rest run)
      ∙ goes_on (execute n command_line m') (prompt n) (
          execute_command-zero read_byte write_byte ptr_page_directory fuel command_line white line
            (arguments n) m')

  -- However many rounds there are, the loop does not return.
  prompt-stays : (n : ℕ) (m : Machine) → is_ok (prompt n m) ≡ false
  unfolding run_command_prompt
  prompt-stays zero m = refl
  prompt-stays (suc n) m = elim (Option-cases (readline m.input (buffer (stack n) line))) [
    | inl ended ↦
        ap (λ r. is_ok (and_then r (execute_line n))) (get_line-none (stack n) line m ended)
    | inr ((l, rest), run) ↦
        ap is_ok (prompt-line n m l rest run)
        ∙ and_then-is_ok (execute n (read_in (stack n) line l) (record m { input = rest }))
            (λ _. prompt n) (λ _ m'. prompt-stays n m')
  ]

  -- When printable characters are typed that fit into the buffer, and a newline, a round of the
  -- prompt executes the line that has exactly these characters, in memory that is as before in front
  -- of the buffer, and goes on with what was typed behind the newline. The prompt never returns.
  pub run_command_prompt-executes :
      (n : ℕ) (typed : List ℕ) (more : List ℤ) (m : Machine)
      → Printable typed
      → length typed < 1024
      → m.input ≡ map pos typed ++ (pos 10 ∷ more)
      → (b : Bytes) × CStr b line typed
        × ((a : ℕ) → a < line → b a ≡ stack n a)
        × (prompt (suc n) m ≡ and_then (execute n b (record m { input = more })) (λ _. prompt n))
        × (is_ok (prompt (suc n) m) ≡ false)
  run_command_prompt-executes n typed more m printable fits keys =
      let (l, run, string, kept) =
        readline-typed typed more (buffer (stack n) line) printable (omega arith) in
      let b = read_in (stack n) line l in
      (
        b,
        subst (λ a. CStr b a typed) (omega arith) (read_in-CStr (stack n) line l 0 typed string),
        λ a before. ground arith,
        prompt-line n m l more (ap (λ input. readline input (buffer (stack n) line)) keys ∙ run),
        prompt-stays (suc n) m,
      )
