-- ===== src/Codegen/Parse/Actions.antt =====
-- roslibrust_codegen/src/parse/action.rs.
use roslibrust.Base.{
  ℕ, suc, ◌+◌, ◌-◌, Option, none, some, List, [], ◌∷◌, ◌++◌, Text, codes, take, drop, if◌then◌else◌,
  Result, ok, err, ◌>>=◌,
}
use roslibrust.Codegen.Strs.{lines}
use roslibrust.Codegen.Types.{Package, ParsedMessageFile}
use roslibrust.Codegen.Parse.{ParseError, no_delimiter}
use roslibrust.Codegen.Parse.Files.{parse_ros_message_file, join_lines, is_delimiter}

-- `ParsedActionFile`, without its path.
pub record ParsedActionFile : Type 0 where
  pub name : Text
  pub package_name : Text
  pub action_type : ParsedMessageFile
  pub goal_type : ParsedMessageFile
  pub result_type : ParsedMessageFile
  pub feedback_type : ParsedMessageFile
  pub action_goal_type : ParsedMessageFile
  pub action_result_type : ParsedMessageFile
  pub action_feedback_type : ParsedMessageFile
  pub source : Text

-- The search for the two delimiters, with the first one if it is found.
unfoldable pub dash_line_numbers : List Text → ℕ → Option ℕ → Option ℕ × Option ℕ
dash_line_numbers [] line_num first = (first, none)
dash_line_numbers (line ∷ rest) line_num none =
    let before = dash_line_numbers rest (suc line_num) none in
    let behind = dash_line_numbers rest (suc line_num) (some line_num) in
    if is_delimiter line then behind else before
dash_line_numbers (line ∷ rest) line_num (some first) =
    let behind = dash_line_numbers rest (suc line_num) (some first) in
    if is_delimiter line then (some first, some line_num) else behind

abbrev newline : Text
newline = 10 ∷ []

pub generate_action_msg : Text → Package → Result ParseError ParsedMessageFile
generate_action_msg name pkg =
    parse_ros_message_file
      (newline
        ++ (name
            ++ (codes "ActionGoal action_goal"
                ++ (newline
                    ++ (name
                        ++ (codes "ActionResult action_result"
                            ++ (newline
                                ++ (name
                                    ++ (codes "ActionFeedback action_feedback"
                                        ++ (newline ++ codes "    "))))))))))
      (name ++ codes "Action") pkg

abbrev header_line : Text
header_line = newline ++ (codes "Header header" ++ newline)

pub generate_action_goal_msg : Text → Package → Result ParseError ParsedMessageFile
generate_action_goal_msg name pkg =
    parse_ros_message_file
      (header_line
        ++ (codes "actionlib_msgs/GoalID goal_id"
            ++ (newline ++ (name ++ (codes "Goal goal" ++ (newline ++ codes "    "))))))
      (name ++ codes "ActionGoal") pkg

pub generate_action_result_msg : Text → Package → Result ParseError ParsedMessageFile
generate_action_result_msg name pkg =
    parse_ros_message_file
      (header_line
        ++ (codes "actionlib_msgs/GoalStatus status"
            ++ (newline ++ (name ++ (codes "Result result" ++ (newline ++ codes "        "))))))
      (name ++ codes "ActionResult") pkg

pub generate_action_feedback_msg : Text → Package → Result ParseError ParsedMessageFile
generate_action_feedback_msg name pkg =
    parse_ros_message_file
      (header_line
        ++ (codes "actionlib_msgs/GoalStatus status"
            ++ (newline ++ (name ++ (codes "Feedback feedback" ++ (newline ++ codes "        "))))))
      (name ++ codes "ActionFeedback") pkg

-- The seven messages of an action with the texts of its three parts.
pub assemble_action :
    Text → Text → Text → Text → Text → Package → Result ParseError ParsedActionFile
assemble_action data_text goal_str result_str feedback_str name pkg = do
  action_type ← generate_action_msg name pkg
  goal_type ← parse_ros_message_file goal_str (name ++ codes "Goal") pkg
  result_type ← parse_ros_message_file result_str (name ++ codes "Result") pkg
  feedback_type ← parse_ros_message_file feedback_str (name ++ codes "Feedback") pkg
  action_goal_type ← generate_action_goal_msg name pkg
  action_result_type ← generate_action_result_msg name pkg
  action_feedback_type ← generate_action_feedback_msg name pkg
  ok (record {
    name = name;
    package_name = pkg.name;
    action_type = action_type;
    goal_type = goal_type;
    result_type = result_type;
    feedback_type = feedback_type;
    action_goal_type = action_goal_type;
    action_result_type = action_result_type;
    action_feedback_type = action_feedback_type;
    source = data_text;
  })

cut_action : Option ℕ × Option ℕ → Text → Text → Package → Result ParseError ParsedActionFile
cut_action (some first, some second) data_text name pkg =
    assemble_action data_text (join_lines (take first (lines data_text)))
      (join_lines (take (second - first - 1) (drop (first + 1) (lines data_text))))
      (join_lines (drop (second + 1) (lines data_text))) name pkg
cut_action _ data_text name pkg = err no_delimiter

unfoldable pub parse_ros_action_file : Text → Text → Package → Result ParseError ParsedActionFile
unfolding cut_action
parse_ros_action_file data_text name pkg =
    cut_action (dash_line_numbers (lines data_text) 0 none) data_text name pkg
