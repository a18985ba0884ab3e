-- ===== src/Tests/Samples.antt =====
-- A JSON of a few values, for runs: the values that it prints and reads are null, the Booleans, arrays of
-- one of these or of one text, and an object with the name 'chat'.
use socket_io_java.Common.{
  [], ◌∷◌, ◌++◌, true, false, Option, none, some, Text, codes, if◌then◌else◌, ◌==◌, text_eq, nat_eq,
}
use socket_io_java.Value.{Value, null, bool, num, str, arr, obj, nil, cons, end, field}
use socket_io_java.Parser.Encode.{Json}

abbrev member : Text → Value → Text
member k (str s) = b'"' ∷ (k ++ (codes "\":\"" ++ (s ++ codes "\"")))
member k v = []

abbrev print_value : Value → Text
print_value null = codes "null"
print_value (bool true) = codes "true"
print_value (bool false) = codes "false"
print_value (num t) = t
print_value (str s) = b'"' ∷ (s ++ b'"' ∷ [])
print_value (arr nil) = codes "[]"
print_value (arr (cons v vs)) = codes "[]"
print_value (obj end) = codes "{}"
print_value (obj (field k v fs)) = b'{' ∷ (member k v ++ codes "}")

abbrev print : Value → Text
print (arr (cons v nil)) = b'[' ∷ (print_value v ++ b']' ∷ [])
print v = print_value v

abbrev read_value : Text → Option Value
read_value t =
    if t == codes "null"
    then some null
    else if t == codes "true"
    then some (bool true)
    else if t == codes "[true]"
    then some (arr (cons (bool true) nil))
    else if t == codes "{\"name\":\"chat\"}"
    then some (obj (field (codes "name") (str (codes "chat")) end))
    else none

abbrev pub sample_json : Json
sample_json = record {
  stringify = print;
  parse = read_value;
  to_string = λ v. codes "[object Object]";
}
