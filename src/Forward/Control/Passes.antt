-- ===== src/Forward/Control/Passes.antt =====
-- The three passes of `CleanSSHArgs` leave the destination.
use sshx.Prelude.{
  ◌≡◌, true, false, not, List, [], ◌∷◌, length, take, ltb, ◌==◌, nat_eq, bytes_eq, bytes_beq,
  eq_iff, contains, contains-All, contains-every, every, arith, refl,
}
use sshx.Prelude.Text.{Bytes, codes, has_prefix}
use sshx.Sshcompat.{options_with_required_value, takes_value, is_target, dashes}
use sshx.Forward.Control.{
  attached, is_auxiliary, value_action, is_tty_request_flag, value_actions,
  strip_control_ssh_options, strip_auxiliary_ssh_options, strip_forwarding_config_options,
  clean_ssh_args,
}
use sshx.Forward.Control.Reaches.{
  Reaches, Strips, Reaches-Strips, has_prefix-is_target, ne-is_target,
}

control_word :
    (v : Bytes) (rest : List Bytes)
    → is_target v ≡ true
    → strip_control_ssh_options (v ∷ rest) ≡ v ∷ strip_control_ssh_options rest
unfolding strip_control_ssh_options
control_word v [] h =
    rw (ne-is_target v b'S' h, has_prefix-is_target v b'S' h, has_prefix-is_target v b'o' h)
control_word v (r ∷ rest) h = rw (
  ne-is_target v b'S' h,
  has_prefix-is_target v b'S' h,
  ne-is_target v b'o' h,
  has_prefix-is_target v b'o' h,
)

-- An option that takes a value in the next word has two letters.
length-takes_value : (a : Bytes) → takes_value a ≡ true → length a ≡ 2
unfolding takes_value
length-takes_value a h = contains-All (λ x. length x ≡ 2) _ a (omega arith) h

attached-takes_value : (a x : Bytes) → takes_value a ≡ true → attached a x ≡ false
attached-takes_value a x h = ground (arith, length-takes_value a h)

pub ne_of_flag : (a x : Bytes) → takes_value a ≡ false → takes_value x ≡ true → (a == x) ≡ false
ne_of_flag a x n y = ground (arith, eq_iff a x)

takes_values :
    (takes_value (codes "-S") ≡ true)
    × (takes_value (codes "-o") ≡ true)
    × (every takes_value value_actions ≡ true)
    × (every (λ x. not (is_target x)) value_actions ≡ true)
    × (every (λ x. not (is_auxiliary x)) options_with_required_value ≡ true)
unfolding takes_value contains bytes_beq every is_target has_prefix is_auxiliary value_action
    is_tty_request_flag
takes_values = (refl, refl, refl, refl, refl)

control_dashes :
    (rest : List Bytes)
    → strip_control_ssh_options (dashes ∷ rest) ≡ dashes ∷ strip_control_ssh_options rest
unfolding strip_control_ssh_options bytes_beq has_prefix
control_dashes [] = refl
control_dashes (r ∷ rest) = refl

pub control-Strips : Strips strip_control_ssh_options
unfolding strip_control_ssh_options
control-Strips = record {
  word = control_word;
  dashes_kept = control_dashes;
  flag_whole = λ a r rest n.
      ground (arith, ne_of_flag a _ n takes_values.0, ne_of_flag a _ n takes_values.1);
  pair_whole = λ a v rest y h. ground (
    arith,
    attached-takes_value a (codes "-S") y,
    attached-takes_value a (codes "-o") y,
    control_word v rest h,
  );
}

value_action_flag : (a : Bytes) → takes_value a ≡ false → value_action a ≡ false
unfolding value_action
value_action_flag a n = ground (arith, contains-every takes_value value_actions a takes_values.2)

value_action-is_target : (v : Bytes) → is_target v ≡ true → value_action v ≡ false
unfolding value_action
value_action-is_target v h =
    ground (arith, contains-every (λ x. not (is_target x)) value_actions v takes_values.3)

is_target-take :
    (v : Bytes) → is_target v ≡ true → ltb 2 (length v) ≡ true → is_target (take 2 v) ≡ true
unfolding is_target has_prefix bytes_beq
is_target-take [] h l = ground arith
is_target-take (c ∷ []) h l = ground arith
is_target-take (c ∷ d ∷ s) h l = ground arith

is_tty_request_flag-is_target : (v : Bytes) → is_target v ≡ true → is_tty_request_flag v ≡ false
unfolding is_target has_prefix bytes_beq is_tty_request_flag
is_tty_request_flag-is_target [] h = refl
is_tty_request_flag-is_target (c ∷ []) h = refl
is_tty_request_flag-is_target (c ∷ d ∷ s) h = ground arith

is_auxiliary-is_target : (v : Bytes) → is_target v ≡ true → is_auxiliary v ≡ false
unfolding is_auxiliary
is_auxiliary-is_target v h = ground (
  arith,
  is_target-take v h,
  value_action-is_target (take 2 v),
  ne-is_target v b'N' h,
  ne-is_target v b'f' h,
  is_tty_request_flag-is_target v h,
)

auxiliary_word :
    (v : Bytes) (rest : List Bytes)
    → is_target v ≡ true
    → strip_auxiliary_ssh_options (v ∷ rest) ≡ v ∷ strip_auxiliary_ssh_options rest
unfolding strip_auxiliary_ssh_options
auxiliary_word v [] h = rw (value_action-is_target v h, is_auxiliary-is_target v h)
auxiliary_word v (r ∷ rest) h = rw (value_action-is_target v h, is_auxiliary-is_target v h)

auxiliary_dashes :
    (rest : List Bytes)
    → strip_auxiliary_ssh_options (dashes ∷ rest) ≡ dashes ∷ strip_auxiliary_ssh_options rest
unfolding strip_auxiliary_ssh_options value_action contains is_auxiliary is_tty_request_flag
    bytes_beq has_prefix
auxiliary_dashes [] = refl
auxiliary_dashes (r ∷ rest) = refl

not_auxiliary : (a : Bytes) → takes_value a ≡ true → is_auxiliary a ≡ false
unfolding takes_value
not_auxiliary a y = ground (
  arith,
  contains-every (λ x. not (is_auxiliary x)) options_with_required_value a takes_values.4 y,
)

auxiliary-Strips : Strips strip_auxiliary_ssh_options
unfolding strip_auxiliary_ssh_options
auxiliary-Strips = record {
  word = auxiliary_word;
  dashes_kept = auxiliary_dashes;
  flag_whole = λ a r rest n. ground (arith, value_action_flag a n);
  pair_whole = λ a v rest y h. ground (arith, not_auxiliary a y, auxiliary_word v rest h);
}

forwarding_word :
    (v : Bytes) (rest : List Bytes)
    → is_target v ≡ true
    → strip_forwarding_config_options (v ∷ rest) ≡ v ∷ strip_forwarding_config_options rest
unfolding strip_forwarding_config_options
forwarding_word v [] h = rw (has_prefix-is_target v b'o' h)
forwarding_word v (r ∷ rest) h = rw (ne-is_target v b'o' h, has_prefix-is_target v b'o' h)

forwarding_dashes :
    (rest : List Bytes)
    → strip_forwarding_config_options (dashes ∷ rest)
      ≡ dashes ∷ strip_forwarding_config_options rest
unfolding strip_forwarding_config_options bytes_beq has_prefix
forwarding_dashes [] = refl
forwarding_dashes (r ∷ rest) = refl

forwarding-Strips : Strips strip_forwarding_config_options
unfolding strip_forwarding_config_options
forwarding-Strips = record {
  word = forwarding_word;
  dashes_kept = forwarding_dashes;
  flag_whole = λ a r rest n. ground (arith, ne_of_flag a _ n takes_values.1);
  pair_whole = λ a v rest y h.
      ground (arith, attached-takes_value a (codes "-o") y, forwarding_word v rest h);
}

-- Cleaning the arguments of a session for a control operation keeps the destination: for every
-- command line with destination `t` whose option values do not begin with a dash.
pub clean_ssh_args-Reaches :
    (t : Bytes) (args : List Bytes)
    → is_target t ≡ true
    → Reaches t args
    → Reaches t (clean_ssh_args args)
unfolding clean_ssh_args
clean_ssh_args-Reaches t args h r =
    Reaches-Strips forwarding-Strips h
      (Reaches-Strips auxiliary-Strips h (Reaches-Strips control-Strips h r))
