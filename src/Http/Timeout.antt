-- ===== src/Http/Timeout.antt =====
-- internal/adapter/handler/middleware/timeout.go: the handler runs in a goroutine of its own, and the
-- middleware waits for its first write, for its end, or for the time to run out. Once the middleware has
-- returned, net/http has sent the answer, and a later write of the goroutine is not part of it.
use alert_bridge.Base.{
  ℕ, String, ◌≡◌, refl, Bool, true, false, Option, none, some, List, [], ◌∷◌, ◌==◌, ◌||◌,
  if◌then◌else◌, arith,
}

-- What a handler does with its ResponseWriter.
pub data Write : Type 0 where
  write_header : ℕ → Write
  write : String → Write

-- `pending` is what the handler still writes, `sent` what the client gets, latest first, and `done` says
-- that the channel is closed. `wrote_header` is also responseWritten.
pub record Exchange : Type 0 where
  pub pending : List Write
  pub wrote_header : Bool
  pub status : Option ℕ
  pub sent : List String
  pub done : Bool
  pub returned : Bool

-- The paths that have no timeout.
unfoldable pub is_exempt : String → Bool
is_exempt path = path == "/metrics" || path == "/health" || path == "/ready" || path == "/"

unfoldable pub start : List Write → Exchange
start ws = record {
  pending = ws;
  wrote_header = false;
  status = none;
  sent = [];
  done = false;
  returned = false;
}

-- (*timeoutResponseWriter).WriteHeader: the first one calls onWrite, which closes the channel.
unfoldable pub on_write_header : ℕ → Exchange → Exchange
on_write_header code x = if x.wrote_header then x else record x {
  wrote_header = true;
  done = true;
  status = if x.returned then x.status else some code;
}

-- (*timeoutResponseWriter).Write
unfoldable pub on_write : String → Exchange → Exchange
on_write text x =
    let y = if x.wrote_header then x else on_write_header 200 x in
    record y { sent = if y.returned then y.sent else text ∷ y.sent }

unfoldable pub perform : Write → Exchange → Exchange
perform (write_header code) x = on_write_header code x
perform (write text) x = on_write text x

-- The goroutine writes or ends, and the select of the middleware returns or times out.
pub data Step : Exchange → Exchange → Type 0 where
  writes :
      (op : Write) (rest : List Write) (x : Exchange)
      → x.pending ≡ op ∷ rest
      → Step x (record (perform op x) { pending = rest })
  ends : (x : Exchange) → x.pending ≡ [] → Step x (record x { done = true })
  returns : (x : Exchange) → x.done ≡ true → Step x (record x { returned = true })
  times_out :
      (x : Exchange)
      → x.wrote_header ≡ false
      → x.returned ≡ false
      → Step x (record x { status = some 504; sent = "Gateway Timeout" ∷ []; returned = true })

pub data Reach (s : Exchange) : Exchange → Type 0 where
  here : Reach s s
  next : {t u : Exchange} → Reach s t → Step t u → Reach s u

-- A handler that writes its status and then any body may be cut off right after the status: the
-- middleware takes the first write for the end of the handler, and the client gets the status with an
-- empty body.
pub body_lost :
    (code : ℕ) (body : List Write)
    → (x : Exchange) × Reach (start (write_header code ∷ body)) x
      × (x.returned ≡ true)
      × (x.status ≡ some code)
      × (x.sent ≡ [])
unfolding start perform on_write_header
body_lost code body =
    let first = start (write_header code ∷ body) in
    let second : Exchange = record (perform (write_header code) first) { pending = body } in
    (
      record second { returned = true },
      next (next here (writes (write_header code) body first refl)) (returns second refl),
      refl,
      refl,
      refl,
    )

-- Whatever the order of the steps, an answer that the middleware has given is not changed by what the
-- handler writes later.
pub returned_stays :
    {x y : Exchange}
    → Step x y
    → x.returned ≡ true
    → (y.status ≡ x.status) × (y.sent ≡ x.sent) × (y.returned ≡ true)
unfolding perform on_write on_write_header
returned_stays (writes (write_header code) rest x e) r = ground (arith, r)
returned_stays (writes (write text) rest x e) r = ground (arith, r)
returned_stays (ends x e) r = (refl, refl, r)
returned_stays (returns x e) r = (refl, refl, refl)
returned_stays (times_out x a b) r = absurd (ground (arith, r, b))
