-- ===== src/Tests/Lnet.antt =====
-- lnet.py on a concrete host, whose network `tcp` moves from one interface to another.
use filesystem_charms.Base.Sort.{texts_beq}
use filesystem_charms.Base.Dict.{values}
use filesystem_charms.Base.Dict.{insert}
use filesystem_charms.System.{run_checked}
use filesystem_charms.Base.{difference, filter, to_set}
use filesystem_charms.Base.Dict.{insert, values}
use filesystem_charms.Base.Exec.{for_each}
use filesystem_charms.Base.Sort.{sorted, texts_beq}
use filesystem_charms.Lnet.Reconcile.{ensure_network, reconcile, add_interfaces, remove_interfaces}
use filesystem_charms.Base.{
  ◌≡◌, refl, ap, zero, suc, true, false, not, ◌&&◌, ◌||◌, if◌then◌else◌, Option, none, some, List,
  [], ◌∷◌, contains, text_beq, text_beq_iff, Bool-cases, inl, inr, text_eq, ◌==◌, arith,
}
use filesystem_charms.Base.Dict.{keys, lookup}
use filesystem_charms.Base.Exec.{ok}
use filesystem_charms.Base.Sort.{texts_eq, texts_beq_iff}
use filesystem_charms.Base.Text.{Text, codes}
use filesystem_charms.Lnet.{Networks}
use filesystem_charms.Lnet.Show.{Yaml, Net, LocalNi, parse_networks}
use filesystem_charms.Lnet.Reconcile.{
  net_show, net_add, interface_add, interface_del, interface_flags, bound_list, ensure_networks,
}
use filesystem_charms.Lnet.Reconcile.Converge.{after, ensure_networks_converges}
use filesystem_charms.Lnet.Reconcile.Idempotent.{ensure_networks_idempotent}
use filesystem_charms.Lnet.Spec.{canonical}
use filesystem_charms.Lnet.Reconcile.Lawful.{View, IsRendered, IsShown, IsLawful}
use filesystem_charms.System.{System, Completed, success, failure}

abbrev tcp : Text
tcp = codes "tcp"

abbrev eth0 : Text
eth0 = codes "eth0"

abbrev eth1 : Text
eth1 = codes "eth1"

data Host : Type 0 where
  on_eth0 on_both on_eth1 : Host

abbrev interfaces_of : Host → List Text
interfaces_of on_eth0 = eth0 ∷ []
interfaces_of on_both = eth0 ∷ eth1 ∷ []
interfaces_of on_eth1 = eth1 ∷ []

abbrev networks_of : Host → Networks
networks_of w = (tcp, interfaces_of w) ∷ []

abbrev printed : Host → Text
printed on_eth0 = 0 ∷ []
printed on_both = 1 ∷ []
printed on_eth1 = 2 ∷ []

abbrev bind_eth1 : Host → Completed × Host
bind_eth1 on_eth0 = (success [], on_both)
bind_eth1 w = (failure [], w)

abbrev unbind_eth0 : Host → Completed × Host
unbind_eth0 on_both = (success [], on_eth1)
unbind_eth0 w = (failure [], w)

abbrev lnetctl_on : List Text → Host → Completed × Host
lnetctl_on argv w =
    if argv == net_show
    then (success (printed w), w)
    else if argv == interface_add tcp (eth1 ∷ [])
    then bind_eth1 w
    else if argv == interface_del tcp (eth0 ∷ [])
    then unbind_eth0 w
    else (failure [], w)

abbrev host : System
host = record {
  World = Host;
  run = lnetctl_on;
  file = λ call w. (true, w);
  is_mount = λ path w. false;
  exists = λ path w. false;
  service_running = λ name w. some true;
  service_restart = λ name w. (true, w);
  read_text = λ path w. some [];
  glob = λ directory pattern w. [];
  set_order = λ xs. xs;
}

abbrev local_ni : Text → LocalNi
local_ni interface = record { interfaces = (0, interface) ∷ [] }

abbrev shown_net : Text → Option (List Net)
shown_net (zero ∷ []) = some (record { net_type = tcp; local_nis = local_ni eth0 ∷ [] } ∷ [])
shown_net (suc zero ∷ []) =
    some (record { net_type = tcp; local_nis = local_ni eth0 ∷ local_ni eth1 ∷ [] } ∷ [])
shown_net (suc (suc zero) ∷ []) =
    some (record { net_type = tcp; local_nis = local_ni eth1 ∷ [] } ∷ [])
shown_net _ = none

abbrev yaml : Yaml
yaml = record {
  Data = Option (List Net);
  safe_load = λ text. some (shown_net text);
  is_none = λ nets. false;
  model_validate = λ nets. some (record { net = nets });
}

abbrev view : View Host
view = record {
  rendered = canonical;
  has_network = λ w n. contains (keys (networks_of w)) n;
  is_bound = λ w n i. contains (bound_list (lookup n (networks_of w))) i;
}

parse_networks-printed : (w : Host) → parse_networks yaml (printed w) ≡ ok (networks_of w)
unfolding parse_networks insert values
parse_networks-printed on_eth0 = refl
parse_networks-printed on_both = refl
parse_networks-printed on_eth1 = refl

run_show : (w : Host) → lnetctl_on net_show w ≡ (success (printed w), w)
unfolding texts_beq net_show text_beq
run_show w = refl

run_add :
    (name : Text) (is : List Text) (w : Host) → lnetctl_on (net_add name is) w ≡ (failure [], w)
unfolding texts_beq net_add net_show text_beq interface_add interface_del
run_add name is w = refl

run_bind :
    (name : Text) (is : List Text) (w : Host)
    → lnetctl_on (interface_add name is) w ≡ (
        if interface_add name is == interface_add tcp (eth1 ∷ [])
        then bind_eth1 w
        else (failure [], w))
unfolding interface_add net_show texts_beq text_beq interface_del
run_bind name is w = refl

run_unbind :
    (name : Text) (is : List Text) (w : Host)
    → lnetctl_on (interface_del name is) w ≡ (
        if interface_del name is == interface_del tcp (eth0 ∷ [])
        then unbind_eth0 w
        else (failure [], w))
unfolding interface_del net_show texts_beq text_beq interface_add
run_unbind name is w = refl

one_flag : (is : List Text) (i : Text) → interface_flags is ≡ interface_flags (i ∷ []) → is ≡ i ∷ []
unfolding interface_flags
one_flag [] i h = absurd (ground arith)
one_flag (j ∷ []) i h = ground arith
one_flag (j ∷ k ∷ is) i h = absurd (ground arith)

bind_eth1_inv :
    (w w' : Host) (out : Text) → bind_eth1 w ≡ (success out, w') → (w ≡ on_eth0) × (w' ≡ on_both)
bind_eth1_inv on_eth0 w' out h = (refl, cc h)
bind_eth1_inv on_both w' out h = absurd (ground arith)
bind_eth1_inv on_eth1 w' out h = absurd (ground arith)

unbind_eth0_inv :
    (w w' : Host) (out : Text) → unbind_eth0 w ≡ (success out, w') → (w ≡ on_both) × (w' ≡ on_eth1)
unbind_eth0_inv on_eth0 w' out h = absurd (ground arith)
unbind_eth0_inv on_both w' out h = (refl, cc h)
unbind_eth0_inv on_eth1 w' out h = absurd (ground arith)

bind_name :
    (name : Text) (is : List Text)
    → interface_add name is ≡ interface_add tcp (eth1 ∷ [])
    → name ≡ tcp
unfolding interface_add
bind_name name is e = cc e

bind_flags :
    (name : Text) (is : List Text)
    → interface_add name is ≡ interface_add tcp (eth1 ∷ [])
    → interface_flags is ≡ interface_flags (eth1 ∷ [])
unfolding interface_add
bind_flags name is e = cc e

unbind_name :
    (name : Text) (is : List Text)
    → interface_del name is ≡ interface_del tcp (eth0 ∷ [])
    → name ≡ tcp
unfolding interface_del
unbind_name name is e = cc e

unbind_flags :
    (name : Text) (is : List Text)
    → interface_del name is ≡ interface_del tcp (eth0 ∷ [])
    → interface_flags is ≡ interface_flags (eth0 ∷ [])
unfolding interface_del
unbind_flags name is e = cc e

bind_inv :
    (w w' : Host) (out name : Text) (is : List Text)
    → lnetctl_on (interface_add name is) w ≡ (success out, w')
    → (name ≡ tcp) × (is ≡ eth1 ∷ []) × (w ≡ on_eth0) × (w' ≡ on_both)
bind_inv w w' out name is h =
    elim (Bool-cases (interface_add name is == interface_add tcp (eth1 ∷ []))) [
      | inl same ↦
          let e = (texts_beq_iff (interface_add name is) (interface_add tcp (eth1 ∷ []))).0 same in
          let (p, q) = bind_eth1_inv w w' out (ground (arith, run_bind name is w)) in
          (bind_name name is e, one_flag is eth1 (bind_flags name is e), p, q)
      | inr other ↦ absurd (ground (arith, run_bind name is w))
    ]

unbind_inv :
    (w w' : Host) (out name : Text) (is : List Text)
    → lnetctl_on (interface_del name is) w ≡ (success out, w')
    → (name ≡ tcp) × (is ≡ eth0 ∷ []) × (w ≡ on_both) × (w' ≡ on_eth1)
unbind_inv w w' out name is h =
    elim (Bool-cases (interface_del name is == interface_del tcp (eth0 ∷ []))) [
      | inl same ↦
          let e = (texts_beq_iff (interface_del name is) (interface_del tcp (eth0 ∷ []))).0 same in
          let (p, q) = unbind_eth0_inv w w' out (ground (arith, run_unbind name is w)) in
          (unbind_name name is e, one_flag is eth0 (unbind_flags name is e), p, q)
      | inr other ↦ absurd (ground (arith, run_unbind name is w))
    ]

bound_after_bind :
    (n i : Text)
    → view.is_bound on_both n i ≡ (
        if tcp == n
        then view.is_bound on_eth0 n i || contains (eth1 ∷ []) i
        else view.is_bound on_eth0 n i)
unfolding contains lookup
bound_after_bind n i = ground arith

bound_after_unbind :
    (n i : Text)
    → view.is_bound on_eth1 n i ≡ (
        if tcp == n
        then view.is_bound on_both n i && not (contains (eth0 ∷ []) i)
        else view.is_bound on_both n i)
unfolding contains lookup
bound_after_unbind n i = ground (arith, text_beq_iff eth0 i, text_beq_iff eth1 i)

shown_networks :
    (w w' : Host) (out : Text) (nets : Networks)
    → lnetctl_on net_show w ≡ (success out, w')
    → parse_networks yaml out ≡ ok nets
    → nets ≡ networks_of w
shown_networks w w' out nets h p =
    let same : printed w ≡ out = cc (run_show w, h) in
    cc (parse_networks-printed w, p, ap (parse_networks yaml) same)

host-IsShown : IsShown host yaml view
unfolding contains lookup keys
host-IsShown = record {
  show = λ w w' out h. cc (run_show w, h);
  show_networks = λ w w' out nets h p n. rw (shown_networks w w' out nets h p) refl;
  show_bound = λ w w' out nets h p n i. rw (shown_networks w w' out nets h p) refl;
}

host-IsLawful : IsLawful host yaml view
unfolding contains lookup keys
host-IsLawful = record {
  shown = host-IsShown;
  set_order = λ xs a. refl;
  add_has = λ w w' out name is c h k n. absurd (ground (arith, run_add name is w));
  add_bound = λ w w' out name is c h k n i. absurd (ground (arith, run_add name is w));
  bind_has = λ w w' out name is c h k n. refl;
  bind_bound = λ w w' out name is c h k n i.
      let (p, q, r, s) = bind_inv w w' out name is h in rw (p, q, r, s) (bound_after_bind n i);
  unbind_has = λ w w' out name kept is c h k m n. refl;
  unbind_bound = λ w w' out name kept is c h k m n i.
      let (p, q, r, s) = unbind_inv w w' out name is h in rw (p, q, r, s) (bound_after_unbind n i);
}

tcp-IsRendered : IsRendered view tcp
unfolding canonical
tcp-IsRendered = refl

abbrev on_second : Networks
on_second = (tcp, eth1 ∷ []) ∷ []

-- `tcp` is on the first interface and moves to the second: one interface is added, and the other
-- removed.
ensure_networks_converges_example :
    (view.has_network on_eth1 tcp ≡ (contains (keys on_second) tcp || view.has_network on_eth0 tcp))
    × (view.is_bound on_eth1 tcp eth0
        ≡ after (lookup tcp on_second) (view.is_bound on_eth0 tcp eth0) eth0)
unfolding ensure_networks run_checked texts_beq net_show text_beq parse_networks for_each
    ensure_network contains keys insert reconcile difference filter to_set lookup values sorted
    add_interfaces remove_interfaces interface_add interface_del
ensure_networks_converges_example =
    ensure_networks_converges host yaml view host-IsLawful on_second on_eth0 on_eth1 (refl, tt)
      ((tcp-IsRendered, (λ e. ground arith)), tt) refl tcp eth0

ensure_networks_idempotent_example : ensure_networks host yaml on_second on_eth1 ≡ (ok tt, on_eth1)
unfolding texts_beq net_show text_beq parse_networks insert values contains keys lookup
ensure_networks_idempotent_example =
    ensure_networks_idempotent host yaml view host-IsShown on_second on_eth1 on_eth1
      (printed on_eth1) on_second refl refl ((refl, λ i. refl), tt)
