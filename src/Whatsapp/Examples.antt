-- ===== src/Whatsapp/Examples.antt =====
-- Connectors of app/whatsapp.py in a fleet of two workspaces and one slot.
use moresocial.Whatsapp.Admission.{no_step, other, stopped_admits_nothing}
use moresocial.Whatsapp.Reports.{noted, report, authenticate}
use moresocial.Whatsapp.Steps.{Reach-IsCapped}
use moresocial.Whatsapp.Capped.{polls, connects, at_start, after, IsCapped}
use moresocial.Base.{
  refl, Uuid, some, false, ◌≢◌, ◌≡◌, arith, ◌∷◌, string_discrete, true, none, map, text_append, [],
  String,
}
use moresocial.Whatsapp.{capacity, pending, stop, stopped, status, request_connect, NewKey, Fleet}

abbrev two_workspaces : Fleet
two_workspaces = record { connectors = []; cleanups = []; workspaces = (1, true) ∷ (2, true) ∷ [] }

abbrev first_key : NewKey
first_key = record { id = 11; key_hash = "d:k1"; key_enc = "e:k1" }

abbrev second_key : NewKey
second_key = record { id = 12; key_hash = "d:k2"; key_enc = "e:k2" }

abbrev first_on : Fleet
first_on = request_connect 1 first_key 5 1 two_workspaces

abbrev both_asked : Fleet
both_asked = request_connect 1 second_key 6 2 first_on

abbrev d : String → String
d s = text_append "d:" s

states : map (λ c. c.observed) both_asked.connectors ≡ pending ∷ capacity ∷ []
unfolding request_connect
states = refl

admitted : authenticate d (some "k1") both_asked ≡ some (1, none)
unfolding request_connect authenticate string_discrete
admitted = refl

refused : authenticate d (some "k2") both_asked ≡ none
unfolding request_connect authenticate string_discrete
refused = refl

-- A report that a running connector has stopped is stale.
stale : report stopped none 1 both_asked ≡ (noted, both_asked)
unfolding request_connect report
stale = refl

Reach-IsCapped_example : IsCapped 1 both_asked
Reach-IsCapped_example =
    Reach-IsCapped 1 two_workspaces both_asked (tt, omega arith)
      (after two_workspaces first_on both_asked
        (after two_workspaces two_workspaces first_on (at_start two_workspaces)
          (connects first_key 5 1 two_workspaces))
        (connects second_key 6 2 first_on))

abbrev stopped_then_polled : Fleet
stopped_then_polled = (status none 1 (stop false 1 both_asked)).1

abbrev second_connects : Fleet
second_connects = request_connect 1 second_key 9 2 stopped_then_polled

second_admitted : authenticate d (some "k2") second_connects ≡ some (2, none)
unfolding request_connect authenticate string_discrete stop status
second_admitted = refl

stopped_admits_nothing_example : ◌≢◌ {A = Uuid} 2 1
unfolding request_connect authenticate string_discrete stop status
stopped_admits_nothing_example =
    stopped_admits_nothing 1 false 1 both_asked second_connects
      (other (stop false 1 both_asked) stopped_then_polled second_connects
        (other (stop false 1 both_asked) (stop false 1 both_asked) stopped_then_polled
          (no_step (stop false 1 both_asked)) (polls none 1 (stop false 1 both_asked)) tt)
        (connects second_key 9 2 stopped_then_polled) (omega arith))
      d (some "k2") 2 none second_admitted
