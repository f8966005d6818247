-- ===== src/Client/Dispatch.antt =====
-- The dispatch table of src/client_text_messages.c and `handle_server_line`.
use rock_paper_scissors_batt.Base.{List, [], ◌∷◌, Bool, true, false, if◌then◌else◌}
use rock_paper_scissors_batt.Float.{Float}
use rock_paper_scissors_batt.Text.Bytes.{Bytes, text, bytes_eq, starts_with}
use rock_paper_scissors_batt.Client.{ClientState}
use rock_paper_scissors_batt.Client.Messages.{parse_state_snapshot_line}
use rock_paper_scissors_batt.Client.General.{parse_general_line}

-- The function of an entry.
pub data LineParser : Type 0 where
  general snapshot : LineParser

pub record DispatchEntry : Type 0 where
  pub token : Bytes
  pub exact : Bool
  pub parser : LineParser

abbrev whole : Bytes → LineParser → DispatchEntry
whole t p = record { token = t; exact = true; parser = p }

abbrev prefix_of : Bytes → LineParser → DispatchEntry
prefix_of t p = record { token = t; exact = false; parser = p }

unfoldable pub dispatch_table : List DispatchEntry
dispatch_table =
    prefix_of (text "WELCOME ") general
    ∷ (whole (text "MATCH_RESET") general
        ∷ (whole (text "SPECTATING") general
            ∷ (whole (text "LOBBY_WAITING") general
                ∷ (prefix_of (text "LOBBY_OPEN ") general
                    ∷ (whole (text "LOBBY_CLOSED") general
                        ∷ (prefix_of (text "SETUP_OPEN ") general
                            ∷ (whole (text "CHOOSE_TYPE") general
                                ∷ (prefix_of (text "CHOOSE_SPAWN") general
                                    ∷ (prefix_of (text "CHOICE_OK ") general
                                        ∷ (prefix_of (text "SPAWN_OK ") general
                                            ∷ (whole (text "JOINED_MATCH") general
                                                ∷ (prefix_of (text "WAITING_FOR_OTHERS") general
                                                    ∷ (prefix_of (text "JOINED ") general
                                                        ∷ (prefix_of (text "LEFT ") general
                                                            ∷ (prefix_of (text "ERROR ") general
                                                            ∷ snapshot_entries)))))))))))))))
  where
    snapshot_entries : List DispatchEntry
    snapshot_entries =
        whole (text "STATE_BEGIN") snapshot
        ∷ (whole (text "STATE_END") snapshot
            ∷ (prefix_of (text "PLAYER ") snapshot
                ∷ (prefix_of (text "ROUND_START ") snapshot
                    ∷ (whole (text "REPICK_START") snapshot
                        ∷ (whole (text "REPICK_DONE") snapshot
                            ∷ (prefix_of (text "PAIR ") snapshot
                                ∷ (prefix_of (text "BYE ") snapshot
                                    ∷ (prefix_of (text "GAME_OVER ") snapshot ∷ []))))))))

unfoldable pub line_matches : DispatchEntry → Bytes → Bool
line_matches e line = if e.exact then bytes_eq line e.token else starts_with e.token line

unfoldable pub run_parser : LineParser → Float → ClientState → Bytes → ClientState
run_parser general = parse_general_line
run_parser snapshot = parse_state_snapshot_line

-- The loop over the table.
unfoldable pub dispatch_from : List DispatchEntry → Float → ClientState → Bytes → ClientState
dispatch_from [] now s line = s
dispatch_from (e ∷ es) now s line =
    let rest = dispatch_from es now s line in
    if line_matches e line then run_parser e.parser now s line else rest

unfoldable pub handle_server_line : Float → ClientState → Bytes → ClientState
handle_server_line now s line = dispatch_from dispatch_table now s line
