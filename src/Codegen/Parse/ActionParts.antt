-- ===== src/Codegen/Parse/ActionParts.antt =====
-- Action files made of three lists of lines, and the messages that every action has.
use roslibrust.Base.{
  ℕ, suc, ◌+◌, ◌-◌, ◌≡◌, refl, ap, sym, ◌∙◌, true, false, Option, none, some, List, [], ◌∷◌, ◌++◌,
  append_assoc, Text, All, length, take, take-append, drop, drop-past, length-append, arith,
}
use roslibrust.Codegen.Types.{Package}
use roslibrust.Codegen.Parse.Files.{join_lines, is_delimiter}
use roslibrust.Codegen.Parse.Actions.{dash_line_numbers, assemble_action, parse_ros_action_file}
use roslibrust.Codegen.Parse.WholeFiles.{IsLine, lines-join_lines}

places :
    {a b c d : ℕ} → a ≡ c → b ≡ d → ◌≡◌ {A = Option ℕ × Option ℕ} (some a, some b) (some c, some d)
places e e' i = (some (e i), some (e' i))

second_found :
    (result : List Text) (dash : Text) (feedback : List Text) (n first : ℕ)
    → All (λ l. is_delimiter l ≡ false) result
    → is_delimiter dash ≡ true
    → dash_line_numbers (result ++ (dash ∷ feedback)) n (some first)
      ≡ (some first, some (length result + n))
unfolding dash_line_numbers
second_found [] dash feedback n first h hd = rw hd (ap (λ k. (some first, some k)) (omega arith))
second_found (l ∷ ls) dash feedback n first h hd = rw (h.0) (
    second_found ls dash feedback (suc n) first h.1 hd
    ∙ ap (λ k. (some first, some k)) (omega arith))

both_found :
    (goal result : List Text) (d1 d2 : Text) (feedback : List Text) (n : ℕ)
    → All (λ l. is_delimiter l ≡ false) goal
    → All (λ l. is_delimiter l ≡ false) result
    → is_delimiter d1 ≡ true
    → is_delimiter d2 ≡ true
    → dash_line_numbers (goal ++ (d1 ∷ (result ++ (d2 ∷ feedback)))) n none
      ≡ (some (length goal + n), some (length goal + n + 1 + length result))
unfolding dash_line_numbers
both_found [] result d1 d2 feedback n hg hr h1 h2 =
    rw h1 (second_found result d2 feedback (suc n) n hr h2 ∙ places (omega arith) (omega arith))
both_found (l ∷ ls) result d1 d2 feedback n hg hr h1 h2 =
    rw (hg.0) (
      both_found ls result d1 d2 feedback (suc n) hg.1 hr h1 h2
      ∙ places (omega arith) (omega arith))

-- An action file is cut at its first two delimiter lines into goal, result and feedback.
pub parse_ros_action_file-cut :
    (goal result : List Text) (d1 d2 : Text) (feedback : List Text) (name : Text) (pkg : Package)
    → All IsLine (goal ++ (d1 ∷ (result ++ (d2 ∷ feedback))))
    → All (λ l. is_delimiter l ≡ false) goal
    → All (λ l. is_delimiter l ≡ false) result
    → is_delimiter d1 ≡ true
    → is_delimiter d2 ≡ true
    → let data_text = join_lines (goal ++ (d1 ∷ (result ++ (d2 ∷ feedback)))) in
      parse_ros_action_file data_text name pkg
      ≡ assemble_action data_text
          (join_lines goal)
          (join_lines result)
          (join_lines feedback)
          name
          pkg
unfolding parse_ros_action_file
parse_ros_action_file-cut goal result d1 d2 feedback name pkg hl hg hr h1 h2 =
    rw (lines-join_lines (goal ++ (d1 ∷ (result ++ (d2 ∷ feedback)))) hl) (
      rw (both_found goal result d1 d2 feedback 0 hg hr h1 h2) (
        rw (lines-join_lines (goal ++ (d1 ∷ (result ++ (d2 ∷ feedback)))) hl)
          (rw (goal_part, result_part, feedback_part) refl)))
  where
    goal_end : length goal + 0 ≡ length goal
    goal_end = omega arith

    goal_part : take (length goal + 0) (goal ++ (d1 ∷ (result ++ (d2 ∷ feedback)))) ≡ goal
    goal_part =
        ap (λ k. take k (goal ++ (d1 ∷ (result ++ (d2 ∷ feedback))))) goal_end ∙ take-append goal _

    result_start : length goal + 0 + 1 ≡ suc (length goal)
    result_start = omega arith

    result_length : length goal + 0 + 1 + length result - (length goal + 0) - 1 ≡ length result
    result_length = omega arith

    result_part :
        take
          (length goal + 0 + 1 + length result - (length goal + 0) - 1)
          (drop (length goal + 0 + 1) (goal ++ (d1 ∷ (result ++ (d2 ∷ feedback)))))
        ≡ result
    result_part =
        ap (λ k. take k (drop (length goal + 0 + 1) (goal ++ (d1 ∷ (result ++ (d2 ∷ feedback))))))
          result_length
        ∙ ap (λ k. take (length result) (drop k (goal ++ (d1 ∷ (result ++ (d2 ∷ feedback))))))
            result_start
        ∙ ap (take (length result)) (drop-past goal d1 (result ++ (d2 ∷ feedback)))
        ∙ take-append result (d2 ∷ feedback)

    feedback_start : length goal + 0 + 1 + length result + 1 ≡ suc (length (goal ++ (d1 ∷ result)))
    feedback_start = omega (arith, length-append goal (d1 ∷ result))

    feedback_part :
        drop (length goal + 0 + 1 + length result + 1) (goal ++ (d1 ∷ (result ++ (d2 ∷ feedback))))
        ≡ feedback
    feedback_part =
        ap (λ k. drop k (goal ++ (d1 ∷ (result ++ (d2 ∷ feedback))))) feedback_start
        ∙ ap (drop (suc (length (goal ++ (d1 ∷ result)))))
            (sym (append_assoc goal (d1 ∷ result) (d2 ∷ feedback)))
        ∙ drop-past (goal ++ (d1 ∷ result)) d2 feedback
