-- ===== src/Examples/Commands.antt =====
-- Commands on a home in memory, and what is typed at the confirmation.
use sequoia.Prelude.{
  ℕ, if◌then◌else◌, ◌&&◌, true, false, List, [], ◌∷◌, ◌++◌, none, some, ◌≡◌, refl,
}
use sequoia.Prelude.Bytes.{Bytes, codes}
use sequoia.Cmd.Confirm.{answer, take_line, concat, ask_for_confirmation}
use sequoia.Cmd.Confirm.Lines.{complete_lines, first_answer, ask_for_confirmation_lem}
use sequoia.Cmd.Account.{Network, cancelled, succeeded, says, with_wallet, terminate, shutdown_cmd}
use sequoia.Cmd.Account.Cancelled.{shutdown_cancelled, shutdown_typed}
use sequoia.Examples.Homes.{memory_disk, tools, codecs, directory, configured, random}

abbrev entered : List ℕ
entered = 10 ∷ []

abbrev yes_line : Bytes
yes_line = codes " Yes" ++ entered

abbrev y_line : Bytes
y_line = codes "y" ++ entered

abbrev no_line : Bytes
no_line = codes "no" ++ entered

-- A yes and a no in three reads.
abbrev reads : List Bytes
reads = codes "what" ∷ (entered ++ codes "n") ∷ (codes "o" ++ entered ++ y_line) ∷ []

ask_for_confirmation_lem_example :
    (rest : List Bytes) × (ask_for_confirmation reads
      ≡ some (first_answer (complete_lines [] (concat reads)), rest))
ask_for_confirmation_lem_example = ask_for_confirmation_lem reads

abbrev network : Network Bytes
network = record {
  acc_address = λ w. w;
  validate_basic = λ m. true;
  broadcast = λ w m. some 0;
  bank_balance = λ a. none;
  parse_coin = λ a. some a;
}

reads_no : first_answer (complete_lines [] (concat reads)) ≡ false
unfolding first_answer complete_lines concat answer
reads_no = refl

shutdown_cancelled_example :
    (shutdown_cmd tools (memory_disk 100) codecs directory network reads random configured
      ≡ some (says tools (memory_disk 100) codecs directory network configured cancelled succeeded))
    × (shutdown_cmd tools
          (memory_disk 100)
          codecs
          directory
          network
          ((y_line ++ y_line) ∷ [])
          random
          configured
        ≡ some
            (says tools (memory_disk 100) codecs directory network configured cancelled succeeded))
shutdown_cancelled_example =
    shutdown_cancelled tools (memory_disk 100) codecs directory network reads (y_line ++ y_line)
      random configured reads_no

a_line : take_line yes_line ≡ some (yes_line, [])
unfolding take_line
a_line = refl

another_line : take_line y_line ≡ some (y_line, [])
unfolding take_line
another_line = refl

says_yes : answer yes_line ≡ some true
unfolding answer
says_yes = refl

says_y : answer y_line ≡ some true
unfolding answer
says_y = refl

shutdown_typed_example :
    shutdown_cmd tools
      (memory_disk 100)
      codecs
      directory
      network
      (yes_line ∷ y_line ∷ [])
      random
      configured
    ≡ some (
        if true && true
        then with_wallet tools
            (memory_disk 100)
            codecs
            directory
            network
            random
            configured
            (terminate tools (memory_disk 100) codecs directory network)
        else says tools (memory_disk 100) codecs directory network configured cancelled succeeded)
shutdown_typed_example =
    shutdown_typed tools (memory_disk 100) codecs directory network yes_line y_line [] true true
      random configured a_line says_yes another_line says_y
