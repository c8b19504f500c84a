-- ===== src/Watch.antt =====
-- `tokio::sync::watch` with the unit as its value, as src/http.rs uses it: one sender, the receiver
-- of the server, and its clones.
use hyper_server.Prelude.{ℕ, ◌+◌, ◌-◌, ◌<◌, ◌≡◌, ◌↔◌, Bool, true, false}

pub record Watch (Channel : Type 0) : Type 0 where
  pub channel : Channel
  pub clone_receiver : Channel → Channel
  pub drop_receiver : Channel → Channel
  pub send : Channel → Channel
  pub drop_sender : Channel → Channel
  pub receiver_count : Channel → ℕ
  -- Whether `changed` returns to a receiver that has seen only the first value: there is another, or
  -- the sender is gone.
  pub has_changed : Channel → Bool
  -- Whether `closed` returns.
  pub is_closed : Channel → Bool

-- What the documentation of the channel says of these.
pub record IsWatch {Channel : Type 0} (w : Watch Channel) : Type 0 where
  pub count-channel : w.receiver_count w.channel ≡ 1
  pub count-clone : (c : Channel) → w.receiver_count (w.clone_receiver c) ≡ w.receiver_count c + 1
  pub count-drop : (c : Channel) → w.receiver_count (w.drop_receiver c) ≡ w.receiver_count c - 1
  pub count-send : (c : Channel) → w.receiver_count (w.send c) ≡ w.receiver_count c
  pub count-drop_sender : (c : Channel) → w.receiver_count (w.drop_sender c) ≡ w.receiver_count c
  pub changed-channel : w.has_changed w.channel ≡ false
  pub changed-clone : (c : Channel) → w.has_changed (w.clone_receiver c) ≡ w.has_changed c
  pub changed-drop : (c : Channel) → w.has_changed (w.drop_receiver c) ≡ w.has_changed c
  pub changed-send : (c : Channel) → 0 < w.receiver_count c → w.has_changed (w.send c) ≡ true
  pub changed-drop_sender : (c : Channel) → w.has_changed (w.drop_sender c) ≡ true
  pub closed_iff : (c : Channel) → (w.is_closed c ≡ true) ↔ (w.receiver_count c ≡ 0)
