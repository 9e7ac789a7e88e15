-- ===== src/Server/Realtime/Events/Kinds.antt =====
-- The kind under which a message is stored.
use zca_desktop.Server.Realtime.Mirror.{is_blank}
use zca_desktop.Common.{
  not, pos, integer_equality, unwrap_or, ◌≡◌, String, Bool, true, false, none, some, Option,
  if◌then◌else◌, ◌==◌, text_equality, arith, Text, ℤ, Bool-cases, inl, inr, refl, is_some, ◌||◌,
  eq_of_==, ◌∙◌,
}
use zca_desktop.Redact.{Value}
use zca_desktop.Server.Realtime as Realtime
use zca_desktop.Server.Realtime.{
  message_kind, RichSticker, RichQuote, RichLink, RichFile, MessageRichPayload,
}
use zca_desktop.Server.Realtime.Events.{
  Content, text, attachment, other, Message, link_from_content, file_from_content,
  sticker_from_content, rich_from_parts, to_incoming_message, as_i64, number_at, sticker_of,
  sticker_image_url,
}
use zca_desktop.Server.Realtime.Persisting.Sealed.{shown_rich}

-- A page to link to, and something to show of a file.
unfoldable pub has_href : {Other : Type 0} → Content Other → Bool
has_href (attachment att) = not (is_blank att.href)
has_href _ = false

unfoldable pub has_media : {Other : Type 0} → Content Other → Bool
has_media (attachment att) =
    not (is_blank att.href) || (not (is_blank att.title) || not (is_blank att.thumb))
has_media _ = false

-- The JSON of a content has an id that is a number and not 0.
unfoldable pub has_sticker_id :
    {Other : Type 0} → (Content Other → Option Value) → (Text → Option ℤ) → Content Other → Bool
has_sticker_id to_value parse content = elim (to_value content) [
  | none ↦ false
  | some value ↦ elim (number_at to_value parse (λ n. "") "id" value) [
    | none ↦ false
    | some id ↦ not (id == pos 0)
  ]
]

-- The kind of a message, by Zalo's type of it and its content.
unfoldable pub kind_of_type :
    {Other : Type 0}
    → (Content Other → Option Value)
    → (Text → Option ℤ)
    → String
    → Content Other
    → String
kind_of_type to_value parse msg_type content =
    if msg_type == "chat.sticker"
    then if has_sticker_id to_value parse content then "sticker" else "text"
    else if msg_type == "chat.link"
    then if has_href content then "link" else "text"
    else if has_media content
    then "file"
    else "text"

abbrev parts :
    Option RichSticker → Option RichQuote → Option RichLink → Option RichFile → MessageRichPayload
parts st q l f = record {
  sticker = st;
  quote = q;
  link = l;
  file = f;
  reaction_icon = none;
  raw = none;
}

abbrev kept_rich : MessageRichPayload → Option MessageRichPayload
kept_rich r = if Realtime.is_empty r then none else some r

abbrev rich_kind : Option MessageRichPayload → String
rich_kind none = "text"
rich_kind (some rich) =
    if is_some rich.sticker
    then "sticker"
    else if is_some rich.link
    then "link"
    else if is_some rich.file
    then "file"
    else "text"

sticker_from_content-none :
    {Other : Type 0} (to_value : Content Other → Option Value) (parse : Text → Option ℤ)
    (print : ℤ → String) (msg_type : String) (content : Content Other)
    → msg_type == "chat.sticker" ≡ false
    → sticker_from_content to_value parse print msg_type content ≡ none
unfolding sticker_from_content
sticker_from_content-none to_value parse print msg_type content h =
    rw (sticker_from_content, h) refl

link_from_content-none :
    {Other : Type 0} (msg_type : String) (content : Content Other)
    → msg_type == "chat.link" ≡ false
    → link_from_content msg_type content ≡ none
unfolding link_from_content
link_from_content-none msg_type (text s) h = refl
link_from_content-none msg_type (attachment att) h = rw (link_from_content, h) refl
link_from_content-none msg_type (other x) h = refl

file_from_content-none :
    {Other : Type 0} (msg_type : String) (content : Content Other)
    → (msg_type == "chat.link") || (msg_type == "chat.sticker") ≡ true
    → file_from_content msg_type content ≡ none
unfolding file_from_content
file_from_content-none msg_type (text s) h = refl
file_from_content-none msg_type (attachment att) h = rw (file_from_content, h) refl
file_from_content-none msg_type (other x) h = refl

-- The kind of a payload that is left out when it is empty.
kind_of_parts :
    (st : Option RichSticker) (q : Option RichQuote) (l : Option RichLink) (f : Option RichFile)
    → rich_kind (kept_rich (parts st q l f)) ≡ (
        if is_some st
        then "sticker"
        else if is_some l
        then "link"
        else if is_some f
        then "file"
        else "text")
unfolding Realtime.is_empty
kind_of_parts st q l f = ground arith

link-has_href :
    {Other : Type 0} (msg_type : String) (content : Content Other)
    → msg_type == "chat.link" ≡ true
    → is_some (link_from_content msg_type content) ≡ has_href content
unfolding link_from_content has_href
link-has_href msg_type (text s) h = refl
link-has_href msg_type (attachment att) h = ground (arith, h)
link-has_href msg_type (other x) h = refl

file-has_media :
    {Other : Type 0} (msg_type : String) (content : Content Other)
    → msg_type == "chat.link" ≡ false
    → msg_type == "chat.sticker" ≡ false
    → is_some (file_from_content msg_type content) ≡ has_media content
unfolding file_from_content has_media
file-has_media msg_type (text s) h k = refl
file-has_media msg_type (attachment att) h k = ground (arith, h, k)
file-has_media msg_type (other x) h k = refl

shown-kept : (r : MessageRichPayload) → shown_rich (kept_rich r) ≡ kept_rich r
unfolding shown_rich
shown-kept r = elim (Bool-cases (Realtime.is_empty r)) [
  | inl empty ↦ rw empty refl
  | inr full ↦ rw full (rw (shown_rich, full) refl)
]

module _ {Other : Type 0} (to_value : Content Other → Option Value) (parse : Text → Option ℤ)
    (print : ℤ → String) where
  -- The kind of the first part that a message has.
  abbrev first_kind : Message Other → String
  first_kind m =
      if is_some (sticker_from_content to_value parse print m.msg_type m.content)
      then "sticker"
      else if is_some (link_from_content m.msg_type m.content)
      then "link"
      else if is_some (file_from_content m.msg_type m.content)
      then "file"
      else "text"

  kind_of_message :
      (m : Message Other) → message_kind (to_incoming_message to_value parse print m) ≡ first_kind m
  unfolding message_kind to_incoming_message rich_from_parts
  kind_of_message m =
      of_rich (rich_from_parts to_value parse print m.msg_type m.content m.quote)
      ∙ kind_of_parts (sticker_from_content to_value parse print m.msg_type m.content) m.quote
          (link_from_content m.msg_type m.content) (file_from_content m.msg_type m.content)
    where
      of_rich :
          (r : Option MessageRichPayload)
          → message_kind (record (to_incoming_message to_value parse print m) { rich = r })
            ≡ rich_kind r
      of_rich none = refl
      of_rich (some r) = refl

  sticker-has_id :
      (msg_type : String) (content : Content Other)
      → msg_type == "chat.sticker" ≡ true
      → is_some (sticker_from_content to_value parse print msg_type content)
        ≡ has_sticker_id to_value parse content
  unfolding sticker_from_content sticker_of has_sticker_id number_at as_i64
  sticker-has_id msg_type content h = rw (sticker_from_content, h) (of_value (to_value content))
    where
      of_id :
          (id : Option ℤ) (value : Value)
          → is_some {A = RichSticker} (elim id [
            | none ↦ none
            | some id ↦
                if id == pos 0
                then none
                else some (record {
                  id = id;
                  cat_id = unwrap_or (number_at to_value parse print "catId" value) (pos 0);
                  sticker_type = unwrap_or (number_at to_value parse print "type" value) (pos 0);
                  url = sticker_image_url to_value parse print id;
                })
          ])
            ≡ elim id [ none ↦ false | some id ↦ not (id == pos 0) ]
      of_id none value = refl
      of_id (some id) value = ground arith

      of_value :
          (v : Option Value)
          → is_some (elim v [ none ↦ none | some value ↦ sticker_of to_value parse print value ])
            ≡ elim v [
              | none ↦ false
              | some value ↦ elim (number_at to_value parse (λ n. "") "id" value) [
                | none ↦ false
                | some id ↦ not (id == pos 0)
              ]
            ]
      of_value none = refl
      of_value (some value) = of_id (number_at to_value parse print "id" value) value

  parts_kind : (m : Message Other) → first_kind m ≡ kind_of_type to_value parse m.msg_type m.content
  unfolding kind_of_type
  parts_kind m = elim (Bool-cases (m.msg_type == "chat.sticker")) [
    | inl sticker ↦
        let e = eq_of_== m.msg_type "chat.sticker" sticker in
        let no_link = link_from_content-none m.msg_type m.content (rw e refl) in
        let no_file = file_from_content-none m.msg_type m.content (rw e refl) in
        rw (no_link, no_file, kind_of_type, sticker, sticker-has_id m.msg_type m.content sticker)
          refl
    | inr other_sticker ↦
        let no_sticker =
          sticker_from_content-none to_value parse print m.msg_type m.content other_sticker in
        elim (Bool-cases (m.msg_type == "chat.link")) [
          | inl link ↦
              let no_file = file_from_content-none m.msg_type m.content (rw link refl) in
              rw
                (
                  no_sticker,
                  no_file,
                  kind_of_type,
                  other_sticker,
                  link,
                  link-has_href m.msg_type m.content link,
                )
                refl
          | inr other_type ↦
              let no_link = link_from_content-none m.msg_type m.content other_type in
              rw
                (
                  no_sticker,
                  no_link,
                  kind_of_type,
                  other_sticker,
                  other_type,
                  file-has_media m.msg_type m.content other_type other_sticker,
                )
                refl
        ]
  ]

  -- A message is stored as a sticker exactly when Zalo's type of it is "chat.sticker" and its content has
  -- an id that is a number and not 0; as a link exactly when the type is "chat.link" and it is an
  -- attachment with a page; as a file exactly when it is of another type and an attachment with a page,
  -- a title or a thumbnail; and else as a text. A payload that it has is not left out of what is stored.
  pub to_incoming_message-kind :
      (m : Message Other)
      → (message_kind (to_incoming_message to_value parse print m)
          ≡ kind_of_type to_value parse m.msg_type m.content)
        × (shown_rich (to_incoming_message to_value parse print m).rich
            ≡ (to_incoming_message to_value parse print m).rich)
  unfolding to_incoming_message rich_from_parts
  to_incoming_message-kind m = (
    kind_of_message m ∙ parts_kind m,
    shown-kept (
        parts (sticker_from_content to_value parse print m.msg_type m.content) m.quote
          (link_from_content m.msg_type m.content) (file_from_content m.msg_type m.content)),
  )
