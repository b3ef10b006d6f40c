-- ===== src/App/Http/Guards.antt =====
-- When a handler runs, and on what.
use go_clarinet.Base.{◌≡◌, refl, ◌⊎◌, inl, inr, Bool, true, false, Option, none, some, Bytes, codes}
use go_clarinet.Base.Eq.{◌==◌, bytes_eq, bytes_beq_iff}
use go_clarinet.World.{World, Env, M}
use go_clarinet.App.Http.{
  Req, Body, Json, Read, read, unread, HttpRequest, Reply, Handled, handle_and_reply, with_body,
  unmarshalled, adapt, write_response,
}

-- A POST with this body.
abbrev pub post : Bytes → HttpRequest
post body = record { method = codes "POST"; body = read body }

module _ (json : Json) {S : Type 0} (env : Env S) (handler : Req → M S Body) where
  -- What the handler makes of a request.
  abbrev pub handled : Req → World S → Handled S
  handled r w = record {
    kept = r;
    reply = (handle_and_reply json env (handler r) w).0;
    world = (handle_and_reply json env (handler r) w).1;
  }

  -- A request that does not reach the handler: a reply with an error's status, and the same world.
  pub record IsRefused (w : World S) (h : Handled S) : Type 0 where
    pub reply : Reply
    pub replies : h.reply ≡ some reply
    pub refuses : (reply.status ≡ 405) ⊎ (reply.status ≡ 500) ⊎ (reply.status ≡ 400)
    pub same : h.world ≡ w

  -- A request that reaches the handler: a POST with a body that is read and parsed.
  pub record IsHandled (request : HttpRequest) (r : Req) (w : World S) (h : Handled S)
      : Type 0 where
    pub body : Bytes
    pub req : Req
    pub posts : request.method ≡ codes "POST"
    pub reads : request.body ≡ read body
    pub parses : json.unmarshal body r ≡ (req, none)
    pub handles : h ≡ handled req w

  parsed_guarded :
      (request : HttpRequest) (r : Req) (w : World S) (body : Bytes) (result : Req × Option Bytes)
      → request.method ≡ codes "POST"
      → request.body ≡ read body
      → json.unmarshal body r ≡ result
      → IsRefused w (unmarshalled json env handler result w)
        ⊎ IsHandled request r w (unmarshalled json env handler result w)
  unfolding unmarshalled write_response
  parsed_guarded request r w body (req, some e) posts reads parses =
      inl (record { reply = _; replies = refl; refuses = inr (inr refl); same = refl })
  parsed_guarded request r w body (req, none) posts reads parses = inr (record {
    body = body;
    req = req;
    posts = posts;
    reads = reads;
    parses = parses;
    handles = refl;
  })

  body_guarded :
      (request : HttpRequest) (r : Req) (w : World S) (body : Read)
      → request.method ≡ codes "POST"
      → request.body ≡ body
      → IsRefused w (with_body json env handler body r w)
        ⊎ IsHandled request r w (with_body json env handler body r w)
  unfolding with_body write_response
  body_guarded request r w (unread e) posts reads =
      inl (record { reply = _; replies = refl; refuses = inr (inl refl); same = refl })
  body_guarded request r w (read body) posts reads =
      parsed_guarded request r w body (json.unmarshal body r) posts reads refl

  method_guarded :
      (request : HttpRequest) (r : Req) (w : World S) (posts : Bool)
      → (request.method == codes "POST") ≡ posts
      → IsRefused w (adapt json env handler request r w)
        ⊎ IsHandled request r w (adapt json env handler request r w)
  unfolding adapt write_response
  method_guarded request r w true posts = rw posts (
      body_guarded request r w request.body ((bytes_beq_iff request.method (codes "POST")).0 posts)
        refl)
  method_guarded request r w false other =
      rw other (inl (record { reply = _; replies = refl; refuses = inl refl; same = refl }))

  -- A request is refused, with the status 405, 500 or 400 and no change of the node, or it is a POST
  -- whose body is read and parsed, and the handler replies to what was parsed.
  pub adapt-IsHandled :
      (request : HttpRequest) (r : Req) (w : World S)
      → IsRefused w (adapt json env handler request r w)
        ⊎ IsHandled request r w (adapt json env handler request r w)
  adapt-IsHandled request r w = method_guarded request r w (request.method == codes "POST") refl

  -- A POST whose body leaves the value that it is parsed into as it is, is handled as the request that
  -- was parsed before it.
  pub adapt_repeats :
      (first second : Bytes) (r req : Req) (w w' : World S)
      → json.unmarshal first r ≡ (req, none)
      → json.unmarshal second req ≡ (req, none)
      → adapt json env handler (post second) (adapt json env handler (post first) r w).kept w'
        ≡ handled req w'
  unfolding adapt
  adapt_repeats first second r req w w' parses keeps = rw (parses, keeps) refl
