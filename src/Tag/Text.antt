-- ===== src/Tag/Text.antt =====
-- lf_comma_separated_time and lf_readable_time of core/tag.c, as the bytes that they write.
pub mod Groups
pub mod Readable
use schedule_test_manual.Base.{
  ℕ, zero, suc, ◌+◌, ◌*◌, ◌/◌, ◌%◌, ◌≡◌, Bool, true, false, Option, none, some, List, [], ◌∷◌, ◌++◌,
  ltb, leb, length, ◌==◌, if◌then◌else◌,
}
use Prim.Native.Char.{code}
use Prim.Native.String.{String}
use mathlib.Core.Option
use schedule_test_manual.Base.Int.{ℤ, pos, negsuc}

infixl 5 ◌>>=◌
abbrev pub ◌>>=◌ {ℓ κ} : {A : Type ℓ} {B : Type κ} → Option A → (A → Option B) → Option B
none >>= f = none
some a >>= f = f a

-- the digit of a number below 10
abbrev digit : ℕ → ℕ
digit n = b'0' + n

-- "%lld" of a number below 1000
unfoldable pub decimal : ℕ → List ℕ
decimal n =
    if leb 100 n
    then digit (n / 100) ∷ digit (n / 10 % 10) ∷ digit (n % 10) ∷ []
    else if leb 10 n
    then digit (n / 10) ∷ digit (n % 10) ∷ []
    else digit n ∷ []

-- ",%03lld" of a number below 1000
unfoldable pub comma_padded : ℕ → List ℕ
comma_padded n = b',' ∷ digit (n / 100) ∷ digit (n / 10 % 10) ∷ digit (n % 10) ∷ []

-- `while (time > 0) { clauses[count++] = time; time = time/1000; }`, the last entry first
unfoldable pub collect : ℕ → ℕ → List ℕ → List ℕ
collect zero time clauses = clauses
collect (suc fuel) time clauses =
    let rest = collect fuel (time / 1000) (time ∷ clauses) in if ltb 0 time then rest else clauses

-- `while (count-- > 0)`
unfoldable pub print_rest : List ℕ → List ℕ
unfolding comma_padded
print_rest [] = []
print_rest (c ∷ cs) = comma_padded (c % 1000) ++ print_rest cs

-- `clauses` has 7 entries, enough for 64 bits; `clauses[--count]` needs one entry
unfoldable pub print_clauses : List ℕ → Option (List ℕ)
unfolding decimal print_rest
print_clauses [] = none
print_clauses (c ∷ cs) = some (decimal (c % 1000) ++ print_rest cs)

-- lf_comma_separated_time: the bytes that it writes, whose number it returns. For a negative time
-- the loop collects nothing, and `clauses[--count]` reads before the array: `none`.
unfoldable pub comma_separated_time : ℤ → Option (List ℕ)
unfolding print_clauses collect
comma_separated_time (pos time) =
    if time == 0 then some (b'0' ∷ []) else print_clauses (collect 8 time [])
comma_separated_time (negsuc n) = print_clauses []

-- the bytes of an ASCII text
abbrev pub codes : String → List ℕ
codes String.[] = []
codes (String.◌∷◌ c s) = code c ∷ codes s

-- What lf_readable_time has written, whether a clause has been written, and the time left.
pub record Line : Type 0 where
  pub text : List ℕ
  pub lead : Bool
  pub time : ℕ

-- the separator before a clause that is not the first
abbrev pub separator : Line → List ℕ
separator l = if l.lead then codes ", " else []

-- the number written by lf_comma_separated_time and a word after it
abbrev pub amount : ℕ → List ℕ → Option (List ℕ)
amount n word = Option.map (λ digits. digits ++ word) (comma_separated_time (pos n))

-- one `if (time > limit)` of lf_readable_time
unfoldable pub clause : ℕ → List ℕ → Line → Option Line
clause limit word l =
    if ltb limit l.time
    then Option.map
        (λ written. record {
          text = l.text ++ (separator l ++ written);
          lead = true;
          time = l.time % limit;
        })
        (amount (l.time / limit) word)
    else some l

-- The last `if` of lf_readable_time: the text, and the number of characters that the function returns.
-- The "0" of its `else` is written and not counted.
unfoldable pub last_clause : Line → Option (List ℕ × ℕ)
last_clause l =
    if ltb 0 l.time
    then (let millis = l.time % 1000000 == 0 in
        let micros = l.time % 1000 == 0 in
        let units =
          if millis
          then codes " milliseconds"
          else if micros
          then codes " microseconds"
          else codes " nanoseconds" in
        let left = if millis then l.time % 1000000 else if micros then l.time % 1000 else l.time in
        Option.map
          (λ written.
            (l.text ++ (separator l ++ written), length (l.text ++ (separator l ++ written))))
          (amount left units))
    else some (l.text ++ b'0' ∷ [], length l.text)

-- lf_readable_time: the text in the buffer and the result. No test passes for a negative time.
unfoldable pub readable_time : ℤ → Option (List ℕ × ℕ)
unfolding clause last_clause
readable_time (negsuc n) = last_clause (record { text = []; lead = false; time = 0 })
readable_time (pos time) =
    clause 604800000000000 (codes " weeks") (record { text = []; lead = false; time = time })
    >>= clause 86400000000000 (codes " days")
    >>= clause 3600000000000 (codes " hours")
    >>= clause 60000000000 (codes " minutes")
    >>= clause 1000000000 (codes " seconds")
    >>= last_clause
