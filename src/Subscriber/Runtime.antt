-- ===== src/Subscriber/Runtime.antt =====
-- What src/bgw/subscriber/nats.rs uses of tokio and async-nats: connecting, and tasks that can be
-- spawned and aborted. `World` is the state of both; `live` says of a task that it was spawned and
-- not aborted.
use pgnats.Common.{ℕ, ◌≡◌, Bool, true, false, Option, List, if◌then◌else◌}
use pgnats.Common.Eq.{Eq}
use pgnats.Text.{Text}
use pgnats.Connect.{Builder}

pub record Runtime : Type 1 where
  pub World : Type 0
  pub Client : Type 0
  pub Handle : Type 0
  pub handle_eq : Eq Handle
  pub live : World → Handle → Bool
  pub builder : Builder
  -- `std::env::current_dir`
  pub current_dir : World → Option Text
  pub connect : World → builder.ConnectOptions → (address : Text) → Option Client × World
  -- `spawn_subscription_task`: a task that forwards the messages of a subject
  pub spawn : World → Client → Text → Handle × World
  pub abort : World → Handle → World
  -- `publish` and `flush`: a subject and a body
  pub publish : World → Client → Text → List ℕ → Bool × World
  pub publish_live :
      (w : World) (c : Client) (s : Text) (body : List ℕ) (h : Handle)
      → live (publish w c s body).1 h ≡ live w h
  -- A connection attempt spawns and aborts none of these tasks.
  pub connect_live :
      (w : World) (o : builder.ConnectOptions) (address : Text) (h : Handle)
      → live (connect w o address).1 h ≡ live w h
  -- A new task has a handle of its own.
  pub spawn_fresh : (w : World) (c : Client) (s : Text) → live w (spawn w c s).0 ≡ false
  pub spawn_live :
      (w : World) (c : Client) (s : Text) (h : Handle)
      → live (spawn w c s).1 h ≡ (if handle_eq.beq (spawn w c s).0 h then true else live w h)
  pub abort_live :
      (w : World) (k h : Handle)
      → live (abort w k) h ≡ (if handle_eq.beq k h then false else live w h)
