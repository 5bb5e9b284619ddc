-- ===== src/Cmd/Account/Cancelled.antt =====
-- When `ShutdownCmd` (cmd/root.go) sends nothing.
use sequoia.Prelude.{if◌then◌else◌, ◌&&◌, Bool, true, false, List, [], ◌∷◌, some, ◌≡◌, refl}
use sequoia.Prelude.Bytes.{Bytes}
use sequoia.Config.Disk.{Disk}
use sequoia.Config.Files.{Codecs}
use sequoia.Config.Wallet.{WalletTools, Random}
use sequoia.Cmd.Confirm.{answer, take_line, concat, confirm_twice}
use sequoia.Cmd.Confirm.Lines.{
  complete_lines, first_answer, ask_for_confirmation_lem, one_read_never_confirms, ask_typed,
}
use sequoia.Cmd.Account.{
  Network, cancelled, succeeded, says, if_confirmed, with_wallet, shutdown_cmd, terminate,
}

module _ (t : WalletTools) (d : Disk) (k : Codecs d.State) (dir : Bytes)
    (n : Network t.Wallet) where
  open d use {State}

  -- The termination is cancelled, with nothing sent and the home as it was, if no line of the input
  -- says yes before one says no. An input that arrives in one read, as from a pipe, cancels it too,
  -- whatever it says: the second question finds nothing.
  pub shutdown_cancelled :
      (stdin : List Bytes) (c : Bytes) (r : Random) (s : State)
      → first_answer (complete_lines [] (concat stdin)) ≡ false
      → (shutdown_cmd t d k dir n stdin r s ≡ some (says t d k dir n s cancelled succeeded))
        × (shutdown_cmd t d k dir n (c ∷ []) r s ≡ some (says t d k dir n s cancelled succeeded))
  unfolding shutdown_cmd if_confirmed confirm_twice
  shutdown_cancelled stdin c r s no_yes =
      let (rest, e) = ask_for_confirmation_lem stdin in
      (rw (e, no_yes) refl, rw (one_read_never_confirms c) refl)

  -- Two lines that are typed one after the other, each a yes or a no: the termination is carried out
  -- on the wallet of the home if both are a yes, and cancelled otherwise.
  pub shutdown_typed :
      (l l' : Bytes) (cs : List Bytes) (b b' : Bool) (r : Random) (s : State)
      → take_line l ≡ some (l, [])
      → answer l ≡ some b
      → take_line l' ≡ some (l', [])
      → answer l' ≡ some b'
      → shutdown_cmd t d k dir n (l ∷ l' ∷ cs) r s
        ≡ some (
            if b && b'
            then with_wallet t d k dir n r s (terminate t d k dir n)
            else says t d k dir n s cancelled succeeded)
  unfolding shutdown_cmd if_confirmed confirm_twice
  shutdown_typed l l' cs false b' r s first one second two =
      rw (ask_typed l (l' ∷ cs) false first one) refl
  shutdown_typed l l' cs true false r s first one second two =
      rw (ask_typed l (l' ∷ cs) true first one) (rw (ask_typed l' cs false second two) refl)
  shutdown_typed l l' cs true true r s first one second two =
      rw (ask_typed l (l' ∷ cs) true first one) (rw (ask_typed l' cs true second two) refl)
