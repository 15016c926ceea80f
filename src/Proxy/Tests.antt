-- ===== src/Proxy/Tests.antt =====
-- Runs of internal/proxy at concrete inputs.
use faketunnel.Base.{◌≡◌, refl, [], ◌∷◌, ◌++◌, arith, take, ok, err, Bytes, text}
use faketunnel.Proxy.Hello.{
  unexpected_eof, read_tls_record, sni_names, parse_sni_extension, extensions, parse_hello_sni,
  peek_rounds, peek_client_hello,
}
use faketunnel.Proxy.Hello.ServerName.{hello_body, sni_extension, parse_hello_sni-hello_body}
use faketunnel.Proxy.Prefix.{with_prefix, read, reads, peeked_reads}
use faketunnel.Proxy.Local.{is_private_or_loopback, is_private_v4, check_ip_v4}

abbrev zeros34 : Bytes
zeros34 =
    let ten = 0 ∷ 0 ∷ 0 ∷ 0 ∷ 0 ∷ 0 ∷ 0 ∷ 0 ∷ 0 ∷ 0 ∷ [] in
    ten ++ (ten ++ (ten ++ 0 ∷ 0 ∷ 0 ∷ 0 ∷ []))

-- no session id, one cipher suite, one compression method, and the name "ab"
abbrev body : Bytes
body =
    zeros34
    ++ 0 ∷ 0 ∷ 2 ∷ 19 ∷ 1 ∷ 1 ∷ 0 ∷ 0 ∷ 11 ∷ 0 ∷ 0 ∷ 0 ∷ 7 ∷ 0 ∷ 5 ∷ 0 ∷ 0 ∷ 2 ∷ 97 ∷ 98 ∷ []

-- the hello in one record, and a byte of what follows
abbrev hello : Bytes
hello = 22 ∷ 3 ∷ 1 ∷ 0 ∷ 58 ∷ 1 ∷ 0 ∷ 0 ∷ 54 ∷ body ++ 23 ∷ []

-- the hello in two records
abbrev split_hello : Bytes
split_hello = 22 ∷ 3 ∷ 1 ∷ 0 ∷ 2 ∷ 1 ∷ 0 ∷ 22 ∷ 3 ∷ 1 ∷ 0 ∷ 56 ∷ 0 ∷ 54 ∷ body ++ 23 ∷ []

server_name : parse_hello_sni body ≡ ok (text "ab")
unfolding parse_hello_sni extensions parse_sni_extension sni_names
server_name = refl

one_record : (peek_client_hello hello).outcome ≡ ok (text "ab")
unfolding peek_client_hello peek_rounds read_tls_record parse_hello_sni extensions
    parse_sni_extension sni_names
one_record = refl

two_records :
    peek_client_hello split_hello
    ≡ record { rest = 23 ∷ []; raw = take 68 split_hello; outcome = ok (text "ab") }
unfolding peek_client_hello peek_rounds read_tls_record parse_hello_sni extensions
    parse_sni_extension sni_names
two_records = refl

-- A header that is cut off is consumed, and not kept.
cut_header :
    peek_client_hello (22 ∷ 3 ∷ []) ≡ record { rest = []; raw = []; outcome = err unexpected_eof }
unfolding peek_client_hello peek_rounds read_tls_record
cut_header = refl

no_tls : (peek_client_hello (text "GET / HTTP/1.1")).outcome ≡ err unexpected_eof
unfolding peek_client_hello peek_rounds read_tls_record
no_tls = refl

parse_hello_sni-hello_body_example :
    parse_hello_sni (
      hello_body zeros34 []
        (19 ∷ 1 ∷ [])
        (0 ∷ [])
        (sni_extension (text "ab") ++ 0 ∷ 23 ∷ 0 ∷ 0 ∷ []))
    ≡ ok (text "ab")
parse_hello_sni-hello_body_example =
    parse_hello_sni-hello_body zeros34 [] (19 ∷ 1 ∷ []) (0 ∷ []) (text "ab") (0 ∷ 23 ∷ 0 ∷ 0 ∷ [])
      refl (omega arith) (omega arith)

peeked_reads_example :
    (reads ((7, 3) ∷ (90, 1) ∷ []) (with_prefix (23 ∷ []) (take 63 hello))).0 ++ 23 ∷ [] ≡ hello
peeked_reads_example =
    unfold with_prefix read peek_client_hello peek_rounds read_tls_record parse_hello_sni extensions
      parse_sni_extension sni_names in
    peeked_reads hello ((7, 3) ∷ (90, 1) ∷ []) refl

check_ip_v4_example : is_private_or_loopback (172 ∷ 31 ∷ 0 ∷ 1 ∷ []) ≡ is_private_v4 172 31
check_ip_v4_example =
    check_ip_v4 172 31 0 1 (omega arith, (omega arith, (omega arith, (omega arith, tt))))
