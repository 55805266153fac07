-- ===== src/Tests/LogTests.antt =====
-- The log ids at a concrete node: its numbers count up, and are written in strokes.
use Prim.Native.String.{len}
use text.Mathlib.TextPositions.{len-append}
use mtlogin.Prelude.{ℕ, zero, suc, String, ◌<>◌, ◌≡◌, refl, sym, ap, ◌∙◌, none, [], ◌∷◌, arith, pos}
use mtlogin.Errors.{ok}
use mtlogin.Context.{app, with_proxy}
use mtlogin.Log.Context.{
  IdLibrary, wrap_context, with_timeout, derive, prefixed, format_prefix, new_log_id, new_context,
}
use mtlogin.Log.Distinct.{Snowflake, runs, AllUnlike, runs_apart}

abbrev strokes : ℕ → String
strokes zero = ""
strokes (suc n) = "1" <> strokes n

len-strokes : (n : ℕ) → len (strokes n) ≡ n
len-strokes zero = refl
len-strokes (suc n) = omega (arith, len-append "1" (strokes n), len-strokes n)

abbrev library : IdLibrary ℕ ℕ
library = record {
  new_node = λ k x. (ok k, x);
  generate = λ n x. (suc x, suc x);
  unix_nano = λ x. (x, x);
  hex = strokes;
}

snowflake : Snowflake library
snowflake = record {
  last = λ n x. x;
  above = λ n x. ground arith;
  moved = λ n x. refl;
  hex_injective = λ i j h. sym (len-strokes i) ∙ ap len h ∙ len-strokes j;
}

abbrev other_work : ℕ → ℕ
other_work x = x

runs_apart_example :
    AllUnlike library snowflake app 102
      (runs library (other_work ∷ other_work ∷ []) app (record { node = none; world = 5 }))
runs_apart_example =
    runs_apart library snowflake app 102 (other_work ∷ other_work ∷ []) 5
      (λ x. refl, (λ x. refl, tt)) refl

-- A context for a channel, derived from that of a run, logs under the id of the run.
channel_line :
    let run = (new_context library app (record { node = none; world = 1 })).0 in
    let sending = with_timeout (pos 5) in
    prefixed (derive (sending ∷ wrap_context (with_proxy app "p") ∷ []) run) "sent"
    ≡ "logid[11] sent"
unfolding derive new_log_id format_prefix
channel_line = refl
