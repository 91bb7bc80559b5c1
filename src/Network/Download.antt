-- ===== src/Network/Download.antt =====
-- src/network/helpers/HTTPDownloader.cpp. The resolver, the connections and the bytes that a server
-- answers are asio's, and arguments: an answer is the list of what each read of the socket gets. A
-- std::istream is the bytes that are left and whether the stream is still good.
pub mod Lines
pub mod Body
pub mod Response
pub mod Fuel
use understory.Base.{
  ℕ, zero, suc, Bool, true, false, not, ◌&&◌, ◌||◌, List, [], ◌∷◌, ◌++◌, Option, none, some, ◌==◌,
  leb, if◌then◌else◌, is_empty, length,
}
use understory.Base.Decimal.{is_digit, value}
use understory.Base.Strings.{same}

-- "Content-Length", the end of a line, and the end of the headers.
abbrev pub content_length : List ℕ
content_length = 67 ∷ 111 ∷ 110 ∷ 116 ∷ 101 ∷ 110 ∷ 116 ∷ 45 ∷ 76 ∷ 101 ∷ 110 ∷ 103 ∷ 116 ∷ 104 ∷ []

abbrev pub crlf : List ℕ
crlf = 13 ∷ 10 ∷ []

abbrev pub blank_line : List ℕ
blank_line = 13 ∷ 10 ∷ 13 ∷ 10 ∷ []

-- The request: "GET ", the command, " HTTP/1.0", "Host: ", the server, "Accept: */*" and
-- "Connection: close", with the ends of the lines.
unfoldable pub request : List ℕ → List ℕ → List ℕ
request server_name get_command =
    71 ∷ 69 ∷ 84 ∷ 32 ∷ get_command
    ++ 32 ∷ 72 ∷ 84 ∷ 84 ∷ 80 ∷ 47 ∷ 49 ∷ 46 ∷ 48 ∷ 13 ∷ 10 ∷ 72 ∷ 111 ∷ 115 ∷ 116 ∷ 58 ∷ 32
      ∷ server_name
    ++ 13 ∷ 10 ∷ 65 ∷ 99 ∷ 99 ∷ 101 ∷ 112 ∷ 116 ∷ 58 ∷ 32 ∷ 42 ∷ 47 ∷ 42 ∷ 13 ∷ 10 ∷ 67 ∷ 111 ∷ 110
      ∷ 110 ∷ 101 ∷ 99 ∷ 116 ∷ 105 ∷ 111 ∷ 110 ∷ 58 ∷ 32 ∷ 99 ∷ 108 ∷ 111 ∷ 115 ∷ 101 ∷ 13 ∷ 10 ∷ 13
      ∷ 10 ∷ []

unfoldable pub starts_with : List ℕ → List ℕ → Bool
starts_with [] cs = true
starts_with (x ∷ xs) [] = false
starts_with (x ∷ xs) (c ∷ cs) = (x == c) && starts_with xs cs

unfoldable pub contains : List ℕ → List ℕ → Bool
contains xs [] = is_empty xs
contains xs (c ∷ cs) = starts_with xs (c ∷ cs) || contains xs cs

-- What is read of the socket, and the reads that are left. `none` is the exception of a connection
-- that ends before the delimiter.
unfoldable pub read_until : List ℕ → List ℕ → List (List ℕ) → Option (List ℕ × List (List ℕ))
unfolding contains
read_until delim buf [] = if contains delim buf then some (buf, []) else none
read_until delim buf (c ∷ cs) =
    let more = read_until delim (buf ++ c) cs in
    if contains delim buf then some (buf, c ∷ cs) else more

-- The reads until the connection ends, which is a read of no byte.
unfoldable pub read_rest : List (List ℕ) → List ℕ
read_rest [] = []
read_rest ([] ∷ cs) = []
read_rest ((b ∷ bs) ∷ cs) = (b ∷ bs) ++ read_rest cs

pub record Stream : Type 0 where
  pub unread : List ℕ
  pub good : Bool

abbrev pub is_space : ℕ → Bool
is_space c = (c == 32) || (leb 9 c && leb c 13)

unfoldable pub drop_spaces : List ℕ → List ℕ
drop_spaces [] = []
drop_spaces (c ∷ cs) = let rest = drop_spaces cs in if is_space c then rest else c ∷ cs

unfoldable pub drop_word : List ℕ → List ℕ
drop_word [] = []
drop_word (c ∷ cs) = let rest = drop_word cs in if is_space c then c ∷ cs else rest

-- `>> http_version`, whose value is not used. A word that ends where the bytes end sets eofbit.
unfoldable pub skip_word : Stream → Stream
unfolding drop_spaces drop_word
skip_word s =
    let rest = drop_spaces s.unread in
    record {
      unread = drop_word rest;
      good = s.good && (not (is_empty rest) && not (is_empty (drop_word rest)));
    }

unfoldable pub take_digits : List ℕ → List ℕ
take_digits [] = []
take_digits (c ∷ cs) = let rest = take_digits cs in if is_digit c then c ∷ rest else []

unfoldable pub drop_digits : List ℕ → List ℕ
drop_digits [] = []
drop_digits (c ∷ cs) = let rest = drop_digits cs in if is_digit c then rest else c ∷ cs

unfoldable pub drop_sign : List ℕ → List ℕ
drop_sign [] = []
drop_sign (c ∷ cs) = if (c == 43) || (c == 45) then cs else c ∷ cs

-- `>> status_code`, whose value is not used: digits after a sign, of a value that an unsigned int has.
unfoldable pub read_unsigned : Stream → Stream
unfolding drop_spaces drop_sign take_digits drop_digits
read_unsigned s =
    let number = drop_sign (drop_spaces s.unread) in
    let digits = take_digits number in
    record {
      unread = drop_digits number;
      good =
          s.good
          && ((not (is_empty digits) && leb (value digits) 4294967295)
              && not (is_empty (drop_digits number)));
    }

unfoldable pub line_of : List ℕ → List ℕ
line_of [] = []
line_of (c ∷ cs) = let rest = line_of cs in if c == 10 then [] else c ∷ rest

unfoldable pub after_line : List ℕ → Option (List ℕ)
after_line [] = none
after_line (c ∷ cs) = let rest = after_line cs in if c == 10 then some cs else rest

found_line : List ℕ → Option (List ℕ) → List ℕ × Stream
unfolding line_of
found_line unread none = (unread, record { unread = []; good = false })
found_line unread (some rest) = (line_of unread, record { unread = rest; good = true })

-- std::getline: `none` where it fails. The last line needs no newline, and sets eofbit.
unfoldable pub getline : Stream → Option (List ℕ × Stream)
unfolding found_line after_line
getline s =
    if s.good && not (is_empty s.unread)
    then some (found_line s.unread (after_line s.unread))
    else none

-- The headers, whether one of them has "Content-Length" in it, and the stream after them.
unfoldable pub read_headers :
    ℕ → List (List ℕ) → Bool → Stream → Option (List (List ℕ) × Bool × Stream)
unfolding getline contains
read_headers zero headers found s = none
read_headers (suc fuel) headers found s = elim (getline s) [
  | none ↦ some (headers, found, record s { good = false })
  | some (line, t) ↦
      let more =
        read_headers fuel (headers ++ line ∷ [])
          (if found then true else contains content_length line) t in
      if same line (13 ∷ []) then some (headers, found, t) else more
]

-- The body, or the exception: the name resolves to no endpoint, no endpoint takes the connection, the
-- connection ends before the headers do, or "Targeted URL is not a file".
pub data Download : Type 0 where
  unresolved not_connected closed not_a_file : Download
  downloaded : List ℕ → Download

body_of : List (List ℕ) → Option (List (List ℕ) × Bool × Stream) → Download
unfolding read_rest
body_of cs none = closed
body_of cs (some (headers, found, s)) =
    if found then downloaded (s.unread ++ read_rest cs) else not_a_file

after_message : Stream → Option (List ℕ × Stream) → Stream
after_message s none = record s { good = false }
after_message s (some (message, t)) = t

skip_message : Stream → Stream
unfolding after_message getline
skip_message s = after_message s (getline s)

-- The status line is read as three values, which are not used.
unfoldable pub skip_status : List ℕ → Stream
unfolding skip_message read_unsigned skip_word
skip_status buf = skip_message (read_unsigned (skip_word (record { unread = buf; good = true })))

read_body : Stream → Option (List ℕ × List (List ℕ)) → Download
unfolding body_of read_headers
read_body s none = closed
read_body s (some (buf, cs)) =
    body_of cs (read_headers (suc (length buf)) [] false (record { unread = buf; good = s.good }))

read_status : Option (List ℕ × List (List ℕ)) → Download
unfolding read_body read_until skip_status
read_status none = closed
read_status (some (buf, cs)) =
    let s = skip_status buf in read_body s (read_until blank_line s.unread cs)

unfoldable pub read_response : List (List ℕ) → Download
unfolding read_status read_until
read_response answer = read_status (read_until crlf [] answer)

module _ {Endpoint : Type 0} (connect : Endpoint → ℕ) where
  -- The endpoint that was tried last, and the error of that connection, 0 for none.
  unfoldable pub connect_any : Endpoint → List Endpoint → Endpoint × ℕ
  connect_any e [] = (e, connect e)
  connect_any e (next ∷ es) =
      let more = connect_any next es in if connect e == 0 then (e, connect e) else more

  -- `resolve` gives the endpoints of a name, or throws where there is none; `answers` says what the
  -- reads after a request get.
  unfoldable pub download_http_file :
      (List ℕ → Option (Endpoint × List Endpoint))
      → (Endpoint → List ℕ → List (List ℕ))
      → List ℕ
      → List ℕ
      → Download
  unfolding request connect_any read_response
  download_http_file resolve answers server_name get_command = elim (resolve server_name) [
    | none ↦ unresolved
    | some (first, others) ↦
        let (e, error) = connect_any first others in
        let response = read_response (answers e (request server_name get_command)) in
        if error == 0 then response else not_connected
  ]
